-- ===== src/ProxyHosts/Watches/Requests.antt =====
-- Which requests a change of a service leads to.
use nginxpm_operator.Base.{
  Bool, true, false, ◌≡◌, refl, sym, arith, List, [], ◌∷◌, ◌++◌, any, In, inl, inr, In-append,
  In-append_left, In-append_right, Bool-cases, text-Eq, text_eq_iff, ◌⊎◌, ◌||◌,
}
use nginxpm_operator.Api.{NamespacedName}
use nginxpm_operator.ProxyHosts.Watches.{same_request, add_requests}

-- No request is there twice.
abbrev pub AreDistinct : List NamespacedName → Type 0
AreDistinct [] = Unit
AreDistinct (r ∷ rs) = (any (λ e. same_request e r) rs ≡ false) × AreDistinct rs

same_request-≡ : (a b : NamespacedName) → same_request a b ≡ true → a ≡ b
unfolding same_request
same_request-≡ a b h =
    let names : a.name ≡ b.name = ground (arith, text_eq_iff a.name b.name) in
    let namespaces : a.namespace ≡ b.namespace =
      ground (arith, text_eq_iff a.namespace b.namespace) in
    λ i. record { namespace = namespaces i; name = names i }

same_request-sym : (a b : NamespacedName) → same_request a b ≡ same_request b a
unfolding same_request
same_request-sym a b = ground (
  arith,
  text_eq_iff a.name b.name,
  text_eq_iff b.name a.name,
  text_eq_iff a.namespace b.namespace,
  text_eq_iff b.namespace a.namespace,
)

any-snoc :
    (p : NamespacedName → Bool) (rs : List NamespacedName) (r : NamespacedName)
    → any p (rs ++ r ∷ []) ≡ (any p rs || p r)
unfolding any
any-snoc p [] r = ground arith
any-snoc p (x ∷ rs) r = rw (any-snoc p rs r) (ground arith)

AreDistinct-snoc :
    (rs : List NamespacedName) (r : NamespacedName)
    → any (λ e. same_request e r) rs ≡ false
    → AreDistinct rs
    → AreDistinct (rs ++ r ∷ [])
unfolding any
AreDistinct-snoc [] r h d = (refl, tt)
AreDistinct-snoc (x ∷ rs) r h (new, d) = (
  rw (any-snoc (λ e. same_request e x) rs r) (ground (arith, same_request-sym r x, new)),
  AreDistinct-snoc rs r (ground arith) d,
)

any-In :
    (r : NamespacedName) (rs : List NamespacedName)
    → any (λ e. same_request e r) rs ≡ true
    → In r rs
unfolding any
any-In r [] h = absurd (ground arith)
any-In r (x ∷ rs) h = elim (Bool-cases (same_request x r)) [
  | inl e ↦ inl (sym (same_request-≡ x r e))
  | inr e ↦ inr (any-In r rs (ground arith))
]

add_requests-AreDistinct :
    (first second : List NamespacedName)
    → AreDistinct first
    → AreDistinct (add_requests first second)
unfolding add_requests
add_requests-AreDistinct first [] d = d
add_requests-AreDistinct first (r ∷ rs) d = elim (Bool-cases (any (λ e. same_request e r) first)) [
  | inl e ↦ rw e (add_requests-AreDistinct first rs d)
  | inr e ↦ rw e (add_requests-AreDistinct (first ++ r ∷ []) rs (AreDistinct-snoc first r e d))
]

add_requests-first :
    (first second : List NamespacedName) (r : NamespacedName)
    → In r first
    → In r (add_requests first second)
unfolding add_requests
add_requests-first first [] r i = i
add_requests-first first (x ∷ rs) r i = elim (Bool-cases (any (λ e. same_request e x) first)) [
  | inl e ↦ rw e (add_requests-first first rs r i)
  | inr e ↦ rw e (add_requests-first (first ++ x ∷ []) rs r (In-append_left r first _ i))
]

add_requests-second :
    (first second : List NamespacedName) (r : NamespacedName)
    → In r second
    → In r (add_requests first second)
unfolding add_requests
add_requests-second first [] r i = absurd i
add_requests-second first (x ∷ rs) r i = elim (Bool-cases (any (λ e. same_request e x) first)) [
  | inl e ↦ rw e (elim i [
    | inl q ↦ add_requests-first first rs r (rw q (any-In x first e))
    | inr j ↦ add_requests-second first rs r j
  ])
  | inr e ↦ rw e (elim i [
    | inl q ↦ add_requests-first (first ++ x ∷ []) rs r (In-append_right r first _ (inl q))
    | inr j ↦ add_requests-second (first ++ x ∷ []) rs r j
  ])
]

pub add_requests-either :
    (first second : List NamespacedName) (r : NamespacedName)
    → In r (add_requests first second)
    → In r first ⊎ In r second
unfolding add_requests
add_requests-either first [] r i = inl i
add_requests-either first (x ∷ rs) r i = elim (Bool-cases (any (λ e. same_request e x) first)) [
  | inl e ↦ elim (add_requests-either first rs r (rw e at i)) [
    | inl j ↦ inl j
    | inr j ↦ inr (inr j)
  ]
  | inr e ↦ elim (add_requests-either (first ++ x ∷ []) rs r (rw e at i)) [
    | inl j ↦ elim (In-append r first (x ∷ []) j) [
      | inl k ↦ inl k
      | inr k ↦ elim k [ inl q ↦ inr (inl q) | inr b ↦ absurd b ]
    ]
    | inr j ↦ inr (inr j)
  ]
]

-- Of two searches, of which the first finds no host twice, all hosts are reconciled, and none
-- twice.
pub add_requests-all :
    (first second : List NamespacedName)
    → AreDistinct first
    → AreDistinct (add_requests first second)
      × ((r : NamespacedName) → In r first ⊎ In r second → In r (add_requests first second))
add_requests-all first second d = (
  add_requests-AreDistinct first second d,
  λ r. λ i. elim i [
    | inl j ↦ add_requests-first first second r j
    | inr j ↦ add_requests-second first second r j
  ],
)
