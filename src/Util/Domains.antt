-- ===== src/Util/Domains.antt =====
-- What `ExtractRootDomain` returns.
use nginxpm_operator.Base.{◌≡◌, refl, sym, ◌∙◌, List, ◌∷◌, ◌++◌, Text, txt}
use nginxpm_operator.Base.Strings.{split, join, trim_suffix}
use nginxpm_operator.Base.Strings.Laws.{join-split}
use nginxpm_operator.Util.{extract_root_domain, root_of_parts}

-- A domain of three labels or more, without a dot at its end, is its first label, a dot, and what
-- is returned.
extract_root_domain-first_label :
    (domain a b c : Text) (parts : List Text)
    → split b'.' (trim_suffix (txt ".") domain) ≡ a ∷ b ∷ c ∷ parts
    → trim_suffix (txt ".") domain ≡ a ++ (txt "." ++ extract_root_domain domain)
unfolding extract_root_domain root_of_parts
extract_root_domain-first_label domain a b c parts labels =
    sym (join-split b'.' (trim_suffix (txt ".") domain)) ∙ rw labels (unfold join in refl)
