-- ===== src/Filters/Http/Accepted.antt =====
-- What an HTTP filter returns.
use iceberg.Common.{Bool, Option, some, false, refl, ◌≡◌, ltb, Bool-cases, inl, inr, [], ◌∷◌}
use iceberg.Common.Go.{Go, ret, fail, panic}
use iceberg.Common.Text.{Text}
use iceberg.Netio.Message.{Request, Response, Context, new_error}
use iceberg.Netio.Request.{RouteValues, with_url, with_context}
use iceberg.Netio.Caller.{CallResult, Cloner}
use iceberg.Filters.Http.{Filter, accept, send_clone, filter_call}

module _ {W : Type 0} (send : Request → W → Go Text Response × W) where
  accept-eq-ret :
      (sent : Go Text Response × W) (r : Bool × Option Response)
      → (accept send sent).0 ≡ ret r
      → (res : Response) × (sent.0 ≡ ret res)
        × (ltb 399 res.status_code ≡ false)
        × (r ≡ (false, some res))
  accept-eq-ret (ret res, w) r e = elim (Bool-cases (ltb 399 res.status_code)) [
    | inl high ↦ absurd (
        let e' : ◌≡◌ {A = CallResult} (fail (new_error res.status res.status_code)) (ret r) =
          rw high at e in
        cc)
    | inr fine ↦ (
      res,
      refl,
      fine,
      let e' : ◌≡◌ {A = CallResult} (ret (false, some res)) (ret r) = rw fine at e in cc,
    )
  ]
  accept-eq-ret (fail x, w) r e = absurd cc
  accept-eq-ret (panic, w) r e = absurd cc

  send_clone-eq-ret :
      (copy : Go Text Request) (w : W) (r : Bool × Option Response)
      → (send_clone send copy w).0 ≡ ret r
      → (q : Request) × (res : Response) × (copy ≡ ret q)
        × ((send q w).0 ≡ ret res)
        × (ltb 399 res.status_code ≡ false)
        × (r ≡ (false, some res))
  send_clone-eq-ret (ret q) w r e =
      let (res, got, fine, same) = accept-eq-ret (send q w) r e in (q, res, refl, got, fine, same)
  send_clone-eq-ret (fail x) w r e = absurd cc
  send_clone-eq-ret panic w r e = absurd cc

  -- When Call of an HTTP filter returns no error, it sent the clone of the request at the address of
  -- the filter, and it returns the answer to that, whose status is below 400, without ending the
  -- cascade.
  pub filter_call-eq-ret :
      (f : Filter W) (ctx : Context) (rv : RouteValues) (c o : Cloner) (w : W)
      (r : Bool × Option Response)
      → (filter_call send f ctx rv c o w).0 ≡ ret r
      → (q : Request) × (res : Response) × (c (with_url f.address rv ∷ with_context ctx ∷ [])
          ≡ ret q)
        × ((send q w).0 ≡ ret res)
        × (ltb 399 res.status_code ≡ false)
        × (r ≡ (false, some res))
  unfolding filter_call
  filter_call-eq-ret f ctx rv c o w r e = send_clone-eq-ret _ w r e
