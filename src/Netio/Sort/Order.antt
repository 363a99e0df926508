-- ===== src/Netio/Sort/Order.antt =====
-- The order that Sort gives to the callers of a proxy.
use iceberg.Common.{
  refl, ℕ, ◌<◌, List, [], ◌∷◌, ◌++◌, Bool, ◌==◌, if◌then◌else◌, ◌≡◌, arith, false, append-nil,
  append_assoc, All, sym, ◌∙◌, ap,
}
use iceberg.Common.Slice.{values, append}
use iceberg.Netio.Sort.{
  Sorting, has_level, level_none, level_pre, level_post, level_connect, level_request,
  level_response, sort_step, sort, sort_loop, initial,
}

module _ {ℓ} {C : Type ℓ} where
  -- The items that pass the test, in their order.
  abbrev pub select : (C → Bool) → List C → List C
  select p [] = []
  select p (c ∷ cs) = if p c then c ∷ select p cs else select p cs

  -- The last item that passes the test, as a list; the first argument if none does.
  abbrev pub latest : (C → Bool) → List C → List C → List C
  latest p before [] = before
  latest p before (c ∷ cs) = latest p (if p c then c ∷ [] else before) cs

-- A caller of exactly LEVEL_PRE or LEVEL_POST has no other level.
at_pre : (flag level : ℕ) → level ≡ level_pre → has_level flag level ≡ has_level flag level_pre
at_pre flag level e = rw e

at_post : (flag level : ℕ) → level ≡ level_post → has_level flag level ≡ has_level flag level_post
at_post flag level e = rw e

module _ {ℓ} {C : Type ℓ} (level : C → ℕ) (grow : ℕ → ℕ) where
  -- Nothing was appended to `main`, and the arrays of `pre` and `post` are in use.
  record IsReady (s : Sorting C) : Type ℓ where
    main_len : s.main.len ≡ 0
    main_cap : s.main.cap ≡ 0
    pre_used : s.pre.array < s.heap.next
    post_used : s.post.array < s.heap.next

  abbrev pub of_level : ℕ → List C → List C
  of_level flag = select (λ c. has_level flag (level c))

  abbrev pub latest_of : ℕ → List C → List C → List C
  latest_of exact = latest (λ c. level c == exact)

  -- The rounds over callers that are not of LEVEL_NONE.
  record Looped (cs : List C) (s s' : Sorting C) : Type ℓ where
    ready : IsReady s'
    connect : s'.connect ≡ s.connect ++ of_level level_connect cs
    request : s'.request ≡ s.request ++ of_level level_request cs
    respone : s'.respone ≡ s.respone ++ of_level level_response cs
    pre : values s'.heap s'.pre ≡ latest_of level_pre (values s.heap s.pre) cs
    post : values s'.heap s'.post ≡ latest_of level_post (values s.heap s.post) cs

  sort_step-IsReady :
      (c : C) (s : Sorting C)
      → IsReady s
      → has_level level_none (level c) ≡ false
      → IsReady (sort_step level grow c s)
  unfolding sort_step append
  sort_step-IsReady c s r h = ground arith

  sort_step-pre :
      (c : C) (s : Sorting C)
      → IsReady s
      → has_level level_none (level c) ≡ false
      → values (sort_step level grow c s).heap (sort_step level grow c s).pre
        ≡ (if level c == level_pre then c ∷ [] else values s.heap s.pre)
  unfolding sort_step append values
  sort_step-pre c s r h = ground arith

  sort_step-connect :
      (c : C) (s : Sorting C)
      → (sort_step level grow c s).connect ≡ s.connect ++ of_level level_connect (c ∷ [])
  unfolding sort_step
  sort_step-connect c s =
      ground (
        arith,
        append-nil s.connect,
        at_pre level_connect (level c),
        at_post level_connect (level c),
      )

  sort_step-request :
      (c : C) (s : Sorting C)
      → (sort_step level grow c s).request ≡ s.request ++ of_level level_request (c ∷ [])
  unfolding sort_step
  sort_step-request c s =
      ground (
        arith,
        append-nil s.request,
        at_pre level_request (level c),
        at_post level_request (level c),
      )

  sort_step-respone :
      (c : C) (s : Sorting C)
      → (sort_step level grow c s).respone ≡ s.respone ++ of_level level_response (c ∷ [])
  unfolding sort_step
  sort_step-respone c s = ground (
    arith,
    append-nil s.respone,
    at_pre level_response (level c),
    at_post level_response (level c),
  )

  sort_step-post :
      (c : C) (s : Sorting C)
      → IsReady s
      → has_level level_none (level c) ≡ false
      → values (sort_step level grow c s).heap (sort_step level grow c s).post
        ≡ (if level c == level_post then c ∷ [] else values s.heap s.post)
  unfolding sort_step append values
  sort_step-post c s r h = ground arith

  of_level-cons :
      (flag : ℕ) (c : C) (cs before : List C)
      → (before ++ of_level flag (c ∷ [])) ++ of_level flag cs ≡ before ++ of_level flag (c ∷ cs)
  of_level-cons flag c cs before =
      ground (arith, append_assoc before (c ∷ []) (of_level flag cs), append-nil before)

  sort_loop-Looped :
      (cs : List C) (s : Sorting C)
      → IsReady s
      → All (λ c. has_level level_none (level c) ≡ false) cs
      → Looped cs s (sort_loop level grow cs s)
  unfolding sort_loop
  sort_loop-Looped [] s r h = record {
    ready = r;
    connect = sym (append-nil _);
    request = sym (append-nil _);
    respone = sym (append-nil _);
    pre = refl;
    post = refl;
  }
  sort_loop-Looped (c ∷ cs) s r (h, hs) =
      let rest = sort_loop-Looped cs (sort_step level grow c s) (sort_step-IsReady c s r h) hs in
      record {
        ready = rest.ready;
        connect =
            rest.connect
            ∙ ap (λ l. l ++ of_level level_connect cs) (sort_step-connect c s)
            ∙ of_level-cons level_connect c cs s.connect;
        request =
            rest.request
            ∙ ap (λ l. l ++ of_level level_request cs) (sort_step-request c s)
            ∙ of_level-cons level_request c cs s.request;
        respone =
            rest.respone
            ∙ ap (λ l. l ++ of_level level_response cs) (sort_step-respone c s)
            ∙ of_level-cons level_response c cs s.respone;
        pre = rest.pre ∙ ap (λ l. latest_of level_pre l cs) (sort_step-pre c s r h);
        post = rest.post ∙ ap (λ l. latest_of level_post l cs) (sort_step-post c s r h);
      }

  -- The round of a caller of LEVEL_NONE alone, the first one.
  sort_step_none :
      (proxy : C) (s : Sorting C)
      → IsReady s
      → level proxy ≡ level_none
      → let s' = sort_step level grow proxy s in
        (values s'.heap s'.main ≡ proxy ∷ [])
        × (values s'.heap s'.pre ≡ values s.heap s.pre)
        × (values s'.heap s'.post ≡ values s.heap s.post)
        × (s'.connect ≡ s.connect)
        × (s'.request ≡ s.request)
        × (s'.respone ≡ s.respone)
  unfolding sort_step append values
  sort_step_none proxy s r e = rw e (ground arith)

  sort_loop-concat :
      (cs : List C) (c : C) (s : Sorting C)
      → sort_loop level grow (cs ++ c ∷ []) s ≡ sort_step level grow c (sort_loop level grow cs s)
  unfolding sort_loop
  sort_loop-concat [] c s = refl
  sort_loop-concat (d ∷ cs) c s = sort_loop-concat cs c (sort_step level grow d s)

  initial-IsReady : IsReady (initial level grow)
  initial-IsReady = omega arith

  -- Sort, on callers none of which has LEVEL_NONE and behind them the proxy itself, which has no
  -- other level: the connect callers, the last pre caller, the request callers, the proxy, the
  -- response callers, the last post caller, each group in the order in which it came. Of several
  -- pre callers, and of several post callers, only the last is kept.
  pub sort-concat :
      (cs : List C) (proxy : C)
      → All (λ c. has_level level_none (level c) ≡ false) cs
      → level proxy ≡ level_none
      → sort level grow (cs ++ proxy ∷ [])
        ≡ of_level level_connect cs
          ++ latest_of level_pre [] cs
          ++ of_level level_request cs
          ++ (proxy ∷ [])
          ++ of_level level_response cs
          ++ latest_of level_post [] cs
  unfolding sort values
  sort-concat cs proxy h e =
      let l = sort_loop-Looped cs (initial level grow) initial-IsReady h in
      let (main, pre, post, connect, request, respone) = sort_step_none proxy _ l.ready e in
      rw (
        sort_loop-concat cs proxy (initial level grow),
        main,
        pre,
        post,
        connect,
        request,
        respone,
        l.connect,
        l.pre,
        l.request,
        l.respone,
        l.post,
      )
