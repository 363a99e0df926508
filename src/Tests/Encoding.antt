-- ===== src/Tests/Encoding.antt =====
-- An encoding of cached responses with one header.
use iceberg.Common.Slice.{values}
use iceberg.Cache.Store.{Codec}
use iceberg.Cache.Store.Hit.{CodecLaws}
use iceberg.Netio.Caller.{request_id}
use iceberg.Netio.Header.{Header}
use iceberg.Common.{
  [], ◌∷◌, none, some, Bool, true, false, ◌≡◌, refl, sym, ◌&&◌, if◌then◌else◌, Bool-cases, inl, inr,
}
use mathlib.Core.Path.{ap₂}
use iceberg.Common.Go.{Go, ret, fail, ret_inj}
use iceberg.Common.Text.{Text, codes, text_beq, text_beq_iff, text_eq}

abbrev pub seven : Text
seven = codes "7"

-- An encoding of messages whose header is the identifier 7.
abbrev has_seven : Text → Text → Bool
has_seven key value = text_beq key request_id && text_beq value seven

abbrev seven_encode : Header → Text → Go Text Text
seven_encode (some ((key, value ∷ []) ∷ [])) body =
    if has_seven key value then ret body else fail (codes "unsupported")
seven_encode _ body = fail (codes "unsupported")

abbrev pub seven_header : Header
seven_header = some ((request_id, seven ∷ []) ∷ [])

abbrev pub codec : Codec
codec = record { encode = seven_encode; decode = λ content. ret (seven_header, content) }

has_seven-eq :
    (key value : Text) → has_seven key value ≡ true → (key ≡ request_id) × (value ≡ seven)
has_seven-eq key value e = elim (Bool-cases (text_beq key request_id)) [
  | inl k ↦ elim (Bool-cases (text_beq value seven)) [
    | inl v ↦ ((text_beq_iff key request_id).0 k, (text_beq_iff value seven).0 v)
    | inr v ↦ absurd (let wrong : false ≡ true = rw (k, v) at e in cc)
  ]
  | inr k ↦ absurd (let wrong : false ≡ true = rw k at e in cc)
]

pub codec-CodecLaws : CodecLaws codec
codec-CodecLaws = record { decode-encode = decoded }
  where
    known :
        (key value body bytes : Text) (b : Bool)
        → has_seven key value ≡ b
        → ◌≡◌ {A = Go Text Text} (if b then ret body else fail (codes "unsupported")) (ret bytes)
        → ◌≡◌ {A = Go Text (Header × Text)}
            (ret (seven_header, bytes))
            (ret (some ((key, value ∷ []) ∷ []), body))
    known key value body bytes true same e =
        let (k, v) = has_seven-eq key value same in
        ap₂ (λ h b. ret (h, b)) (ap₂ (λ k v. some ((k, v ∷ []) ∷ [])) (sym k) (sym v))
          (sym (ret_inj e))
    known key value body bytes false same e = absurd (cc)

    decoded :
        (h : Header) (body bytes : Text)
        → seven_encode h body ≡ ret bytes
        → ◌≡◌ {A = Go Text (Header × Text)} (ret (seven_header, bytes)) (ret (h, body))
    decoded none body bytes e = absurd (cc)
    decoded (some []) body bytes e = absurd (cc)
    decoded (some ((key, []) ∷ m)) body bytes e = absurd (cc)
    decoded (some ((key, value ∷ []) ∷ [])) body bytes e = known key value body bytes _ refl e
    decoded (some ((key, value ∷ []) ∷ (d ∷ m))) body bytes e = absurd (cc)
    decoded (some ((key, value ∷ (d ∷ values)) ∷ m)) body bytes e = absurd (cc)
