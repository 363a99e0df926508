-- ===== src/Filters/Nats/Reflected.antt =====
-- Where the reflector sends the answer to a durable request.
use iceberg.Common.Go.{>>=-eq-ret, ret_inj}
use iceberg.Nats.Broker.{Msg}
use iceberg.Netio.Header.{Header}
use iceberg.Netio.Clone.{clone_header}
use iceberg.Netio.Message.{Request, read_all}
use iceberg.Filters.Nats.{HeadersLib, reflect, durable_message, reflected_header}
use iceberg.Common.{List, [], Option, none, some, false, ◌==◌, ◌≡◌, refl, sym, ap, ◌∙◌, length}
use iceberg.Common.Go.{ret}
use iceberg.Common.Text.{Text, text_eq}
use iceberg.Common.Map.{Map}

-- What was exported to an empty header is imported from it, and the reply that was set is read.
pub record HeadersLaws (headers : HeadersLib) : Type 0 where
  pub import-export :
      (h m : Map Text (List Text)) → headers.export_to h [] ≡ ret m → headers.import_from m ≡ ret h
  pub get_reply-set_reply :
      (reply : Text) (h : Map Text (List Text))
      → headers.get_reply (headers.set_reply reply h) ≡ reply

module _ (atoi_error : Text → Text) (headers : HeadersLib) (laws : HeadersLaws headers) where
  reflected_header-reply :
      (inbox : Text) (header : Header) (h : Map Text (List Text))
      → reflected_header atoi_error headers inbox header ≡ ret h
      → headers.get_reply h ≡ inbox
  reflected_header-reply inbox none h e = absurd (cc)
  reflected_header-reply inbox (some g) h e =
      ap headers.get_reply (sym (ret_inj e)) ∙ laws.get_reply-set_reply inbox _

  -- An answer that carries the header of a durable request, whatever its body, is published by the
  -- reflector, if it is published without an error, at the inbox of that request, with its body.
  pub reflect-durable_message :
      (subject inbox : Text) (req : Request) (sent answer : Msg) (out : Option Msg)
      → durable_message atoi_error headers subject inbox req ≡ ret sent
      → (length inbox == 0) ≡ false
      → answer.header ≡ sent.header
      → reflect atoi_error headers answer ≡ ret out
      → (m : Msg) × (out ≡ some m) × (m.subject ≡ inbox) × (m.body ≡ answer.body)
  unfolding reflect
  reflect-durable_message subject inbox req sent answer out e filled same o =
      let (_, _, e₁) = >>=-eq-ret (read_all req.body) _ sent e in
      let (hdr, set, e₂) =
        >>=-eq-ret (reflected_header atoi_error headers inbox (clone_header req.header)) _ sent
          e₁ in
      let (h, exported, e₃) = >>=-eq-ret (headers.export_to hdr []) _ sent e₂ in
      let carried = same ∙ sym (ap (λ (m : Msg). m.header) (ret_inj e₃)) in
      let (g, imported, o₁) = >>=-eq-ret (headers.import_from answer.header) _ out o in
      let same_header : hdr ≡ g = ret_inj (
        sym (laws.import-export hdr h exported)
        ∙ sym (ap headers.import_from carried)
        ∙ imported) in
      let at_inbox : headers.get_reply g ≡ inbox =
        ap headers.get_reply (sym same_header) ∙ reflected_header-reply inbox _ hdr set in
      let test : (length (headers.get_reply g) == 0) ≡ false = rw at_inbox filled in
      let (header, _, o₂) =
        >>=-eq-ret (headers.export_to (headers.delete_reply g) answer.header) _ out
          (rw test at o₁) in
      (_, sym (ret_inj o₂), at_inbox, refl)
