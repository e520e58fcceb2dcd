-- ===== src/Routing/Asked.antt =====
-- What `provide`, `get_value` and `put_value` of `TieredRouting` return.
use py_ipfs_lite.Prelude.{
  String, Bool, true, false, not, ◌&&◌, ◌||◌, Option, none, some, List, [], ◌∷◌, ◌++◌, ◌≡◌, ◌↔◌,
  ◌⊎◌, refl, sym, ap, ◌∙◌, subst, if◌then◌else◌, arith, All, In, inl, inr, Bool-cases,
}
use py_ipfs_lite.Errors.{Result, ok, raise, routing_error}
use py_ipfs_lite.Routing.Tiered.{
  Router, value_or, is_ok, says_yes, provide_from, provide, value_of, get_value, put_from,
  put_value,
}

abbrev pub nonempty : List Router → Bool
nonempty [] = false
nonempty (r ∷ rs) = true

module _ (key : String) where
  -- Some router of the list provides the key.
  pub Provided : List Router → Type 0
  Provided rs = (r : Router) × In r rs × (r.provide key ≡ ok true)

  provide_from-true : (rs : List Router) → provide_from rs key true ≡ true
  unfolding provide_from
  provide_from-true [] = refl
  provide_from-true (r ∷ rs) = provide_from-true rs

  -- `provide` is true exactly where some router provides the key.
  pub provide-Provided : (rs : List Router) → (provide rs key ≡ true) ↔ Provided rs
  unfolding provide_from Provided
  provide-Provided rs = (there rs, λ (r, m, h). back r rs m h)
    where
      there : (rs : List Router) → provide_from rs key false ≡ true → Provided rs
      there [] h = absurd (ground (arith, h))
      there (r ∷ rs) h = elim (Bool-cases (says_yes (r.provide key))) [
        | inl y ↦ (r, inl refl, yes (r.provide key) y)
        | inr n ↦
            let (q, m, g) = there rs (subst (λ b. provide_from rs key b ≡ true) n h) in
            (q, inr m, g)
      ]
        where
          yes : (a : Result Bool) → says_yes a ≡ true → a ≡ ok true
          yes (ok b) e = ap ok e
          yes (raise x) e = absurd (ground (arith, e))

      back :
          (r : Router) (rs : List Router)
          → In r rs
          → r.provide key ≡ ok true
          → provide_from rs key false ≡ true
      back r [] m h = elim m [ ]
      back r (q ∷ rs) (inl e) h =
          subst (λ b. provide_from rs key b ≡ true)
            (sym (ap says_yes (subst (λ (w : Router). w.provide key ≡ ok true) e h)))
            (provide_from-true rs)
      back r (q ∷ rs) (inr m) h = go (says_yes (q.provide key)) (back r rs m h)
        where
          go : (b : Bool) → provide_from rs key false ≡ true → provide_from rs key b ≡ true
          go true g = provide_from-true rs
          go false g = g

  -- A router that raises or has no value.
  pub Silent : Router → Type 0
  Silent r = value_of (r.get_value key) ≡ none

  pub Answers : String → List Router → Type 0
  Answers v rs =
      (before : List Router) × (r : Router) × (after : List Router) × (rs ≡ before ++ (r ∷ after))
      × All Silent before
      × (r.get_value key ≡ ok (some v))

  -- `get_value` is None where every router raises or has no value, and otherwise the value of the
  -- first router that has one.
  pub get_value-Answers :
      (rs : List Router)
      → ((get_value rs key ≡ none) × All Silent rs)
        ⊎ ((v : String) × (get_value rs key ≡ some v) × Answers v rs)
  unfolding get_value Silent Answers
  get_value-Answers [] = inl (refl, tt)
  get_value-Answers (r ∷ rs) = go (r.get_value key) refl (get_value-Answers rs)
    where
      later :
          Silent r
          → ((get_value rs key ≡ none) × All Silent rs)
            ⊎ ((v : String) × (get_value rs key ≡ some v) × Answers v rs)
          → ((get_value rs key ≡ none) × All Silent (r ∷ rs))
            ⊎ ((v : String) × (get_value rs key ≡ some v) × Answers v (r ∷ rs))
      later s (inl (n, all)) = inl (n, (s, all))
      later s (inr (v, g, (before, q, after, e, all, a))) =
          inr (v, g, (r ∷ before, q, after, ap (λ z. r ∷ z) e, (s, all), a))

      go :
          (a : Result (Option String))
          → r.get_value key ≡ a
          → ((get_value rs key ≡ none) × All Silent rs)
            ⊎ ((v : String) × (get_value rs key ≡ some v) × Answers v rs)
          → ((value_or (value_of a) (get_value rs key) ≡ none) × All Silent (r ∷ rs))
            ⊎ ((v : String) × (value_or (value_of a) (get_value rs key) ≡ some v)
                × Answers v (r ∷ rs))
      go (ok (some v)) e h = inr (v, refl, ([], r, rs, refl, tt, e))
      go (ok none) e h = later (ap value_of e) h
      go (raise x) e h = later (ap value_of e) h

  module _ (value : String) where
    pub Accepts : Router → Type 0
    Accepts r = is_ok (r.put_value key value) ≡ true

    pub Refuses : Router → Type 0
    Refuses r = is_ok (r.put_value key value) ≡ false

    put_from-true : (rs : List Router) (f : Bool) → (put_from rs key value true f).0 ≡ true
    unfolding put_from
    put_from-true [] f = refl
    put_from-true (r ∷ rs) f = put_from-true rs _

    put_from-accepted :
        (rs : List Router) (s f : Bool) (r : Router)
        → In r rs
        → Accepts r
        → (put_from rs key value s f).0 ≡ true
    unfolding put_from Accepts
    put_from-accepted [] s f r m a = elim m [ ]
    put_from-accepted (q ∷ rs) s f r (inl e) a =
        subst (λ b. (put_from rs key value b (f || not (is_ok (q.put_value key value)))).0 ≡ true)
          (ground (arith, subst (λ (w : Router). is_ok (w.put_value key value) ≡ true) e a))
          (put_from-true rs (f || not (is_ok (q.put_value key value))))
    put_from-accepted (q ∷ rs) s f r (inr m) a = put_from-accepted rs _ _ r m a

    put_from-refused :
        (rs : List Router) (f : Bool)
        → All Refuses rs
        → put_from rs key value false f ≡ (false, f || nonempty rs)
    unfolding put_from Refuses
    put_from-refused [] f h = ap (λ b. (false, b)) (ground arith)
    put_from-refused (r ∷ rs) f h =
        subst (λ b. put_from rs key value b (f || not b) ≡ (false, f || true)) (sym h.0)
          (put_from-refused rs (f || true) h.1 ∙ ap (λ b. (false, b)) (ground arith))

    decide : (rs : List Router) → All Refuses rs ⊎ ((r : Router) × In r rs × Accepts r)
    unfolding Accepts Refuses
    decide [] = inl tt
    decide (r ∷ rs) = elim (Bool-cases (is_ok (r.put_value key value))) [
      | inl y ↦ inr (r, inl refl, y)
      | inr n ↦ elim (decide rs) [ inl all ↦ inl (n, all) | inr (q, m, a) ↦ inr (q, inr m, a) ]
    ]

    -- `put_value` raises where there are routers and all of them raise, and otherwise there is no
    -- router or one has accepted the value.
    pub put_value_lem :
        (rs : List Router)
        → ((put_value rs key value ≡ raise routing_error) × (nonempty rs ≡ true) × All Refuses rs)
          ⊎ ((put_value rs key value ≡ ok tt) × ((rs ≡ []) ⊎ ((r : Router) × In r rs × Accepts r)))
    unfolding put_value put_from
    put_value_lem [] = inr (refl, inl refl)
    put_value_lem (r ∷ rs) = elim (decide (r ∷ rs)) [
      | inl all ↦ inl (ap verdict (put_from-refused (r ∷ rs) false all), refl, all)
      | inr (q, m, a) ↦
          inr (accepted _ (put_from-accepted (r ∷ rs) false false q m a), inr (q, m, a))
    ]
      where
        verdict : Bool × Bool → Result (Unit {0})
        verdict (success, failed) = if failed && not success then raise routing_error else ok tt

        accepted : (x : Bool × Bool) → x.0 ≡ true → verdict x ≡ ok tt
        accepted (s, f) e = ground (arith, e)
