-- ===== src/Npm/ProxyHosts/Matching.antt =====
-- Which host a search by its domains or by its id finds.
use nginxpm_operator.Base.{
  suc, ◌≤◌, true, false, ◌≡◌, ◌↔◌, ◌⊎◌, inl, inr, refl, arith, List, [], ◌∷◌, ◌++◌, length, any,
  all, In, In-append, In-append_left, In-append_right, NoRepeat, In→contains, contains→In, ◌==◌,
  nat-Eq, int-Eq, text-Eq, nat_eq_iff, Text, Bool-cases, contains,
}
use nginxpm_operator.Npm.ProxyHosts.{domains_match}

-- Two lists with the same elements.
abbrev pub SameDomains : List Text → List Text → Type 0
SameDomains xs ys = ((d : Text) → In d xs → In d ys) × ((d : Text) → In d ys → In d xs)

-- A list that is cut at an element.
record Cut (a : Text) (ys : List Text) : Type 0 where
  left : List Text
  right : List Text
  whole : ys ≡ left ++ a ∷ right

cut : (a : Text) (ys : List Text) → In a ys → Cut a ys
cut a [] i = absurd i
cut a (y ∷ ys) (inl e) = record { left = []; right = ys; whole = rw e refl }
cut a (y ∷ ys) (inr i) =
    let c = cut a ys i in record { left = y ∷ c.left; right = c.right; whole = rw (← c.whole) refl }

length-cut : (a : Text) (l r : List Text) → length (l ++ a ∷ r) ≡ suc (length (l ++ r))
length-cut a [] r = refl
length-cut a (x ∷ l) r = rw (length-cut a l r) refl

In-around : (a d : Text) (l r ys : List Text) → ys ≡ l ++ a ∷ r → In d ys → (d ≡ a) ⊎ In d (l ++ r)
In-around a d l r ys whole i = elim (In-append d l (a ∷ r) (rw (← whole) i)) [
  | inl j ↦ inr (In-append_left d l r j)
  | inr (inl e) ↦ inl e
  | inr (inr j) ↦ inr (In-append_right d l r j)
]

not_repeated : (x e : Text) (xs : List Text) → contains xs x ≡ false → In e xs → e ≡ x → ⊥
not_repeated x e xs n j q = let c = In→contains xs e j in absurd (cc)

-- Distinct elements fill a list that is no longer than they are.
pigeonhole :
    (xs ys : List Text)
    → NoRepeat xs
    → ((d : Text) → In d xs → In d ys)
    → length ys ≤ length xs
    → (d : Text) → In d ys
    → In d xs
pigeonhole [] [] n sub le d i = i
pigeonhole [] (y ∷ ys) n sub le d i = absurd (omega arith)
pigeonhole (x ∷ xs) ys n sub le d i =
    let c = cut x ys (sub x (inl refl)) in
    let rest : (e : Text) → In e xs → In e (c.left ++ c.right) = λ e j.
      elim (In-around x e c.left c.right ys c.whole (sub e (inr j))) [
        | inl q ↦ absurd (not_repeated x e xs n.0 j q)
        | inr k ↦ k
      ] in
    let longer : length ys ≡ suc (length (c.left ++ c.right)) =
      rw c.whole (length-cut x c.left c.right) in
    elim (In-around x d c.left c.right ys c.whole i) [
      | inl q ↦ inl q
      | inr k ↦ inr (pigeonhole xs (c.left ++ c.right) n.1 rest (omega arith) d k)
    ]

any-contains : (host : List Text) (s : Text) → any (λ h. h == s) host ≡ contains host s
unfolding any contains
any-contains [] s = refl
any-contains (h ∷ host) s = rw (any-contains host s) refl

all-any :
    (host wanted : List Text)
    → (all (λ s. any (λ h. h == s) host) wanted ≡ true) ↔ ((d : Text) → In d wanted → In d host)
unfolding all
all-any host [] = (λ h d i. absurd i, λ h. refl)
all-any host (s ∷ wanted) =
    let (sound, complete) = all-any host wanted in
    let first = any-contains host s in
    (
      λ h d i. elim i [
        | inl e ↦ rw e (contains→In host s (ground arith))
        | inr j ↦ sound (ground arith) d j
      ],
      λ sub.
          let c = In→contains host s (sub s (inl refl)) in
          let cs = complete (λ d j. sub d (inr j)) in ground arith,
    )

-- For searched domains without repetitions, a host matches exactly if it has as many domains and
-- the same ones.
pub domains_match_iff :
    (host wanted : List Text)
    → NoRepeat wanted
    → (domains_match host wanted ≡ true) ↔ ((length host ≡ length wanted) × SameDomains host wanted)
unfolding domains_match
domains_match_iff host wanted n = elim (Bool-cases (length host == length wanted)) [
  | inr differ ↦ (
    λ h. absurd (ground arith),
    λ h. absurd (ground (arith, nat_eq_iff (length host) (length wanted))),
  )
  | inl same ↦
      let lengths = (nat_eq_iff (length host) (length wanted)).0 same in
      let among = all-any host wanted in
      (
        λ h.
            let sub = among.0 (ground arith) in
            (lengths, (pigeonhole wanted host n sub (omega arith), sub)),
        λ h. let every = among.1 h.1.1 in ground arith,
      )
]
