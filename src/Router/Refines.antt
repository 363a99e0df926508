-- ===== src/Router/Refines.antt =====
-- The route table against the list of its registrations.
use iceberg.Router.{Route, RouteTable, register}
use iceberg.Router.Table.{
  IsValid, empty_table-IsValid, register_of_none, register_of_some, register-IsValid,
}
use iceberg.Router.Spec.{Registered, route_of, table_of, first_or, original, NoCollision}
use iceberg.Common.Map.{get, put, get_or, get-put}
use mathlib.Core.List.{Memᴰ}
use mathlib.Core.Path.{subst}
use iceberg.Common.{
  nat_eq, ℕ, List, [], ◌∷◌, Option, none, some, true, false, ◌≡◌, refl, sym, ap, ◌∙◌, inl, inr,
  Bool-cases, Option-cases, All-mem, some_inj,
}
use iceberg.Common.Text.{text_beq_iff, Text, text_beq, text_eq}
use iceberg.Common.Map.{Map}

module _ {ℓ} {H : Type ℓ} (digest : Text → Text) where
  -- The routes with so many segments.
  abbrev routes_of : RouteTable H → ℕ → List Route
  routes_of rt n = get_or n rt.routes []

  pub table_of-IsValid : (regs : List (Registered H)) → IsValid (table_of digest regs)
  unfolding table_of
  table_of-IsValid [] = empty_table-IsValid
  table_of-IsValid (r ∷ earlier) =
      register-IsValid digest r.url r.method r.handler _ (table_of-IsValid earlier)

  first_or_other :
      (o : Option H) (hash : Text) (r : Registered H)
      → text_beq (route_of digest r).hash hash ≡ false
      → first_or digest o hash r ≡ o
  first_or_other (some h) hash r other = refl
  first_or_other none hash r other = rw other refl

  first_or_same :
      (hash : Text) (r : Registered H)
      → text_beq (route_of digest r).hash hash ≡ true
      → first_or digest none hash r ≡ some r.handler
  first_or_same hash r same = rw same refl

  put-first_or :
      (r : Registered H) (configs : Map Text H) (hash : Text)
      → get (route_of digest r).hash configs ≡ none
      → get hash (put (route_of digest r).hash r.handler configs)
        ≡ first_or digest (get hash configs) hash r
  put-first_or r configs hash fresh = elim (Bool-cases (text_beq (route_of digest r).hash hash)) [
    | inl same ↦
        let gone : get hash configs ≡ none =
          subst (λ k. get k configs ≡ none) ((text_beq_iff (route_of digest r).hash hash).0 same)
            fresh in
        rw (get-put, same) refl
        ∙ sym (ap (λ o. first_or digest o hash r) gone ∙ first_or_same hash r same)
    | inr other ↦ rw (get-put, other) refl ∙ sym (first_or_other (get hash configs) hash r other)
  ]

  kept-first_or :
      (r : Registered H) (configs : Map Text H) (hash : Text) (old : H)
      → get (route_of digest r).hash configs ≡ some old
      → get hash configs ≡ first_or digest (get hash configs) hash r
  kept-first_or r configs hash old taken =
      elim (Bool-cases (text_beq (route_of digest r).hash hash)) [
        | inl same ↦
            let there : get hash configs ≡ some old =
              subst (λ k. get k configs ≡ some old)
                ((text_beq_iff (route_of digest r).hash hash).0 same) taken in
            there ∙ sym (ap (λ o. first_or digest o hash r) there)
        | inr other ↦ sym (first_or_other (get hash configs) hash r other)
      ]

  first_or-get :
      (r : Registered H) (rt : RouteTable H) (hash : Text)
      → get hash (register digest r.url r.method r.handler rt).configs
        ≡ first_or digest (get hash rt.configs) hash r
  first_or-get r rt hash = elim (Option-cases (get (route_of digest r).hash rt.configs)) [
    | inl fresh ↦
        ap (λ (t : RouteTable H). get hash t.configs)
          (register_of_none digest r.url r.method r.handler rt fresh)
        ∙ put-first_or r rt.configs hash fresh
    | inr (old, taken) ↦
        ap (λ (t : RouteTable H). get hash t.configs)
          (register_of_some digest r.url r.method r.handler rt taken)
        ∙ kept-first_or r rt.configs hash old taken
  ]

  pub get-table_of :
      (regs : List (Registered H)) (hash : Text)
      → get hash (table_of digest regs).configs ≡ original digest hash regs
  unfolding table_of original get
  get-table_of [] hash = refl
  get-table_of (r ∷ earlier) hash =
      first_or-get r (table_of digest earlier) hash
      ∙ ap (λ o. first_or digest o hash r) (get-table_of earlier hash)

  -- The first handler with a hash is that of a registration with it.
  pub original-get :
      (regs : List (Registered H)) (hash : Text) (h : H)
      → original digest hash regs ≡ some h
      → (r : Registered H) × Memᴰ r regs × ((route_of digest r).hash ≡ hash) × (r.handler ≡ h)
  unfolding original
  original-get [] hash h e = absurd (cc)
  original-get (r ∷ earlier) hash h e = elim (Option-cases (original digest hash earlier)) [
    | inr (h', before) ↦
        let (r', m, same, its) = original-get earlier hash h' before in
        let kept : some h' ≡ some h = sym (ap (λ o. first_or digest o hash r) before) ∙ e in
        (r', Memᴰ.tail m, same, its ∙ some_inj kept)
    | inl none_before ↦ elim (Bool-cases (text_beq (route_of digest r).hash hash)) [
      | inl same ↦
          let made : some r.handler ≡ some h =
            sym (first_or_same hash r same)
            ∙ sym (ap (λ o. first_or digest o hash r) none_before)
            ∙ e in
          (r, Memᴰ.head refl, (text_beq_iff (route_of digest r).hash hash).0 same, some_inj made)
      | inr other ↦
          let wrong : none ≡ some h =
            sym (first_or_other none hash r other)
            ∙ sym (ap (λ o. first_or digest o hash r) none_before)
            ∙ e in
          absurd (cc)
    ]
  ]

  -- Registrations with the same hash have the same route, where no digest collided.
  pub NoCollision-route :
      (regs : List (Registered H)) (r r' : Registered H)
      → NoCollision digest regs
      → Memᴰ r regs
      → Memᴰ r' regs
      → (route_of digest r').hash ≡ (route_of digest r).hash
      → route_of digest r' ≡ route_of digest r
  NoCollision-route [] r r' h m m' e = elim m [ ]
  NoCollision-route (r₀ ∷ earlier) r r' (same, apart) (Memᴰ.head a) (Memᴰ.head b) e =
      ap (route_of digest) (b ∙ sym a)
  NoCollision-route (r₀ ∷ earlier) r r' (same, apart) (Memᴰ.head a) (Memᴰ.tail m') e =
      All-mem _ m' same (e ∙ ap (λ x. (route_of digest x).hash) a) ∙ sym (ap (route_of digest) a)
  NoCollision-route (r₀ ∷ earlier) r r' (same, apart) (Memᴰ.tail m) (Memᴰ.head b) e =
      ap (route_of digest) b ∙ sym (All-mem _ m same (sym e ∙ ap (λ x. (route_of digest x).hash) b))
  NoCollision-route (r₀ ∷ earlier) r r' (same, apart) (Memᴰ.tail m) (Memᴰ.tail m') e =
      NoCollision-route earlier r r' apart m m' e
