-- ===== src/Filters/Message/Status.antt =====
-- The status that a message gives a response.
use mathlib.Core.Path.{subst}
use iceberg.Common.Go.{>>=-eq-ret, ret_inj}
use iceberg.Common.Decimal.{ℤ, pos, negsuc, atoi, atoi_signed}
use iceberg.Nats.Broker.{Msg}
use iceberg.Netio.Header.{header_get}
use iceberg.Netio.Message.{read_all, reader}
use iceberg.Netio.Response.{ShadowResponse, new_shandow_response}
use iceberg.Filters.Message.{msg_to_response, status_code_of, read_status, header_of}
use iceberg.Common.{ℕ, ◌^◌, ◌≤◌, ◌<◌, [], ◌∷◌, Option, none, some, ◌≡◌, refl, arith}
use iceberg.Common.Go.{ret}
use iceberg.Common.Text.{Text, codes, text_eq}

atoi_bound : (s : Text) (n : ℕ) → atoi s ≡ some n → n < 2 ^ 63
unfolding atoi
atoi_bound [] n e = absurd (cc)
atoi_bound (c ∷ s) n e = ground arith

-- An int that Atoi reads is below 2 ^ 63.
abbrev Fits : ℤ → Type 0
Fits (pos n) = n < 2 ^ 63
Fits (negsuc n) = Unit

atoi_signed_bound : (s : Text) (z : ℤ) → atoi_signed s ≡ some z → Fits z
unfolding atoi_signed
atoi_signed_bound s (negsuc n) e = tt
atoi_signed_bound [] (pos n) e = absurd (cc)
atoi_signed_bound (c ∷ []) (pos n) e = ground (arith, atoi_bound [] n, atoi_bound (c ∷ []) n)
atoi_signed_bound (c ∷ d ∷ s) (pos n) e =
    ground (arith, atoi_bound (d ∷ s) n, atoi_bound (c ∷ d ∷ s) n)

status_code_of_bounds : (z : ℤ) → Fits z → (100 ≤ status_code_of z) × (status_code_of z < 2 ^ 63)
status_code_of_bounds (pos n) h = ground arith
status_code_of_bounds (negsuc n) h = ground arith

read_status-eq-ret :
    (atoi_error : Text → Text) (text : Text) (found : Option ℤ) (z : ℤ)
    → read_status atoi_error text found ≡ ret z
    → found ≡ some z
read_status-eq-ret atoi_error text none z e = absurd (cc)
read_status-eq-ret atoi_error text (some y) z e = cc

-- A response made of a message has a status that is a proper one, at least 100, and an int; its body
-- is the message's, unread.
pub msg_to_response_bounds :
    (atoi_error : Text → Text) (m : Msg) (s : ShadowResponse)
    → msg_to_response atoi_error m ≡ ret s
    → (100 ≤ s.response.status_code)
      × (s.response.status_code < 2 ^ 63)
      × (s.response.body ≡ reader m.body)
      × (s.data_bytes ≡ m.body)
unfolding msg_to_response new_shandow_response read_all
msg_to_response_bounds atoi_error m s e =
    let (header, added, e₁) = >>=-eq-ret (header_of m) _ s e in
    let text = header_get header (codes "Status") in
    let (z, read, e₂) = >>=-eq-ret (read_status atoi_error text (atoi_signed text)) _ s e₁ in
    let (low, high) =
      status_code_of_bounds z
        (atoi_signed_bound text z (read_status-eq-ret atoi_error text _ z read)) in
    subst
      (λ (s : ShadowResponse).
        (100 ≤ s.response.status_code)
        × (s.response.status_code < 2 ^ 63)
        × (s.response.body ≡ reader m.body)
        × (s.data_bytes ≡ m.body))
      (ret_inj e₂) (low, high, refl, refl)
