-- ===== src/Proxy/Guards.antt =====
-- Which requests the proxy passes on.
use fintech_innova_hack.Prelude.{
  ◌≡◌, refl, ◌≢◌, ◌↔◌, ◌⊎◌, inl, inr, true, false, none, some, List, [], ◌∷◌, arith, All, any,
  Option-cases, ℕ,
}
use fintech_innova_hack.Prelude.Text.{Text, codes}
use fintech_innova_hack.Prelude.Text.Laws.{Lacks, text_eq_iff, text_eq_refl}
use fintech_innova_hack.Server.Backend.{demo_token}
use fintech_innova_hack.Server.Http.{Platform}
use fintech_innova_hack.Proxy.{
  Request, is_mutating, segment_is, is_allowed_demo_path, is_cross_site, has_unit, is_bad_segment,
  refusal, is_demo, is_empty,
}

-- A part of a path that names no other directory and holds no separator.
abbrev pub IsPlain : Text → Type 0
IsPlain s = (s ≢ codes ".") × (s ≢ codes "..") × Lacks b'/' s × Lacks b'\\' s

-- A browser's request that changes something comes from a page of the same host.
abbrev pub IsSameSite : Platform → Request → Type 0
IsSameSite p req =
    (req.origin ≡ none)
    ⊎ ((o : Text) × (h : Text) × (req.origin ≡ some o)
        × (p.url_host o ≡ some h)
        × (req.host ≡ some h))

-- In the demonstration surface, only the scenario runner, and only if the surface is configured.
abbrev IsScenario : Platform → List Text → Type 0
IsScenario p segments =
    (name : Text) × (segments ≡ codes "v1" ∷ codes "demo" ∷ codes "scenarios" ∷ name ∷ [])
    × (demo_token p.demo ≢ [])

has_unit-false : (c : ℕ) (s : Text) → has_unit c s ≡ false → Lacks c s
unfolding has_unit
has_unit-false c [] h = tt
has_unit-false c (d ∷ s) h = ground (arith, has_unit-false c s)

has_unit-Lacks : (c : ℕ) (s : Text) → Lacks c s → has_unit c s ≡ false
unfolding has_unit
has_unit-Lacks c [] h = refl
has_unit-Lacks c (d ∷ s) (n, h) = ground (arith, has_unit-Lacks c s h)

pub is_bad_segment_iff : (s : Text) → (is_bad_segment s ≡ false) ↔ IsPlain s
unfolding is_bad_segment
is_bad_segment_iff s = (
  λ h. ground (
    arith,
    text_eq_iff s (codes "."),
    text_eq_iff s (codes ".."),
    has_unit-false b'/' s,
    has_unit-false b'\\' s,
  ),
  λ h. ground (
    arith,
    text_eq_iff s (codes "."),
    text_eq_iff s (codes ".."),
    has_unit-Lacks b'/' s,
    has_unit-Lacks b'\\' s,
  ),
)

any_bad_iff : (ss : List Text) → (any is_bad_segment ss ≡ false) ↔ All IsPlain ss
any_bad_iff [] = (λ h. tt, λ h. refl)
any_bad_iff (s ∷ ss) = (
  λ h. ground (arith, (is_bad_segment_iff s).0, (any_bad_iff ss).0),
  λ h. ground (arith, (is_bad_segment_iff s).1, (any_bad_iff ss).1),
)

first_segment :
    (t : Text) (ss : List Text) → segment_is 0 t ss ≡ true → (rest : List Text) × (ss ≡ t ∷ rest)
unfolding segment_is
first_segment t [] h = cc
first_segment t (s ∷ ss) h = (ss, ground (arith, text_eq_iff s t))

first_segment_holds : (t : Text) (rest : List Text) → segment_is 0 t (t ∷ rest) ≡ true
unfolding segment_is
first_segment_holds t rest = text_eq_refl t

abbrev pub IsMutating : Text → Type 0
IsMutating m = (m ≡ codes "POST") ⊎ (m ≡ codes "PUT") ⊎ (m ≡ codes "PATCH") ⊎ (m ≡ codes "DELETE")

is_mutating_iff : (m : Text) → (is_mutating m ≡ true) ↔ IsMutating m
unfolding is_mutating
is_mutating_iff m = (
  λ h. ground (
    arith,
    text_eq_iff m (codes "POST"),
    text_eq_iff m (codes "PUT"),
    text_eq_iff m (codes "PATCH"),
    text_eq_iff m (codes "DELETE"),
  ),
  λ h. ground (
    arith,
    text_eq_iff m (codes "POST"),
    text_eq_iff m (codes "PUT"),
    text_eq_iff m (codes "PATCH"),
    text_eq_iff m (codes "DELETE"),
  ),
)

is_cross_site_sound :
    (p : Platform) (req : Request) → is_cross_site p req ≡ false → IsSameSite p req
unfolding is_cross_site
is_cross_site_sound p req h = elim (Option-cases req.origin) [
  | inl e ↦ inl e
  | inr (o, e) ↦ elim (Option-cases (p.url_host o)) [
    | inl u ↦ ground arith
    | inr (a, u) ↦ elim (Option-cases req.host) [
      | inl k ↦ ground arith
      | inr (b, k) ↦ inr (o, a, e, u, ground (arith, text_eq_iff a b))
    ]
  ]
]

is_cross_site_complete :
    (p : Platform) (req : Request) → IsSameSite p req → is_cross_site p req ≡ false
unfolding is_cross_site
is_cross_site_complete p req (inl e) = rw e
is_cross_site_complete p req (inr (o, h, e, u, k)) = ground (arith, text_eq_refl h)

demo_sound :
    (ss : List Text)
    → segment_is 0 (codes "v1") ss ≡ true
    → segment_is 1 (codes "demo") ss ≡ true
    → is_allowed_demo_path ss ≡ true
    → (name : Text) × (ss ≡ codes "v1" ∷ codes "demo" ∷ codes "scenarios" ∷ name ∷ [])
unfolding is_allowed_demo_path
demo_sound [] h k a = cc
demo_sound (s ∷ []) h k a = cc
demo_sound (s ∷ t ∷ []) h k a = cc
demo_sound (s ∷ t ∷ u ∷ []) h k a = ground arith
demo_sound (s ∷ t ∷ u ∷ v ∷ []) h k a = (
  v,
  ground (
    arith,
    text_eq_iff s (codes "v1"),
    text_eq_iff t (codes "demo"),
    text_eq_iff u (codes "scenarios"),
  ),
)
demo_sound (s ∷ t ∷ u ∷ v ∷ w ∷ ss) h k a = ground arith

-- What a request must be to reach the API.
pub record IsPermitted (p : Platform) (req : Request) : Type 0 where
  pub plain : All IsPlain req.segments
  pub versioned : (rest : List Text) × (req.segments ≡ codes "v1" ∷ rest)
  pub same_site : IsMutating req.method → IsSameSite p req
  pub scenario :
      (rest : List Text)
      → req.segments ≡ codes "v1" ∷ codes "demo" ∷ rest
      → IsScenario p req.segments

is_demo-cons :
    (ss rest : List Text)
    → ss ≡ codes "v1" ∷ codes "demo" ∷ rest
    → segment_is 1 (codes "demo") ss ≡ true
unfolding segment_is
is_demo-cons ss rest e = rw e (text_eq_refl (codes "demo"))

demo_shape :
    (ss : List Text)
    → segment_is 0 (codes "v1") ss ≡ true
    → segment_is 1 (codes "demo") ss ≡ true
    → (rest : List Text) × (ss ≡ codes "v1" ∷ codes "demo" ∷ rest)
unfolding segment_is
demo_shape [] h k = cc
demo_shape (s ∷ []) h k = cc
demo_shape (s ∷ t ∷ ss) h k =
    (ss, ground (arith, text_eq_iff s (codes "v1"), text_eq_iff t (codes "demo")))

allowed-scenario :
    (ss : List Text) (name : Text)
    → ss ≡ codes "v1" ∷ codes "demo" ∷ codes "scenarios" ∷ name ∷ []
    → is_allowed_demo_path ss ≡ true
unfolding is_allowed_demo_path
allowed-scenario ss name e = rw e (ground (arith, text_eq_refl (codes "scenarios")))

is_empty_iff : (t : Text) → (is_empty t ≡ false) ↔ (t ≢ [])
is_empty_iff t = (λ h. ground arith, λ h. ground arith)

refusal_sound : (p : Platform) (req : Request) → refusal p req ≡ none → IsPermitted p req
unfolding refusal
refusal_sound p req h = record {
  plain = (any_bad_iff req.segments).0 (ground arith);
  versioned = first_segment (codes "v1") req.segments (ground arith);
  same_site = λ m. is_cross_site_sound p req (ground (arith, (is_mutating_iff req.method).1 m));
  scenario = λ rest e.
      let demo = is_demo-cons req.segments rest e in
      let (name, shape) = demo_sound req.segments (ground arith) demo (ground arith) in
      (name, shape, (is_empty_iff (demo_token p.demo)).0 (ground arith));
}

permitted_demo :
    (p : Platform) (req : Request)
    → IsPermitted p req
    → segment_is 0 (codes "v1") req.segments ≡ true
    → is_demo req ≡ true
    → (is_allowed_demo_path req.segments ≡ true) × (is_empty (demo_token p.demo) ≡ false)
permitted_demo p req h v d =
    let (rest, e) = demo_shape req.segments v d in
    let (name, shape, token) = h.scenario rest e in
    (allowed-scenario req.segments name shape, (is_empty_iff (demo_token p.demo)).1 token)

refusal_complete : (p : Platform) (req : Request) → IsPermitted p req → refusal p req ≡ none
unfolding refusal
refusal_complete p req h =
    let (rest, e) = h.versioned in
    let first : segment_is 0 (codes "v1") req.segments ≡ true =
      rw e (first_segment_holds (codes "v1") rest) in
    ground (
      arith,
      (any_bad_iff req.segments).1 h.plain,
      first,
      λ (m : is_mutating req.method ≡ true).
          is_cross_site_complete p req (h.same_site ((is_mutating_iff req.method).0 m)),
      permitted_demo p req h first,
    )

-- No guard refuses a request exactly when the request is permitted: no segment of its path is "." or
-- ".." or holds a slash or a backslash, its path begins with "v1", a mutating request that names an
-- origin names the request's host, and a path into "v1/demo" is that of one scenario, with a
-- demonstration token configured.
pub refusal_iff : (p : Platform) (req : Request) → (refusal p req ≡ none) ↔ IsPermitted p req
refusal_iff p req = (refusal_sound p req, refusal_complete p req)
