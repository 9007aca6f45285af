-- ===== src/Util.antt =====
-- pkg/util/util.go. `NewHttpClient`, a client with a timeout of 60 seconds, is part of the
-- environment.
pub mod Domains
use nginxpm_operator.Base.{List, [], ◌∷◌, Text, txt}
use nginxpm_operator.Base.Strings.{split, join, trim_suffix}

-- `len(parts) <= 2` is the first three patterns.
root_of_parts : Text → List Text → Text
root_of_parts domain [] = domain
root_of_parts domain (a ∷ []) = domain
root_of_parts domain (a ∷ b ∷ []) = domain
root_of_parts domain (a ∷ parts) = join (txt ".") parts

unfoldable pub extract_root_domain : Text → Text
unfolding root_of_parts
extract_root_domain domain =
    let trimmed = trim_suffix (txt ".") domain in root_of_parts trimmed (split b'.' trimmed)
