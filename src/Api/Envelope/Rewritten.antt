-- ===== src/Api/Envelope/Rewritten.antt =====
-- The status of a handler reaches the client, and its body does unless it is a bare 404 or 405.
use gigmcp.Base.{
  Text, List, [], ◌∷◌, ◌++◌, ℕ, true, false, has_prefix, lit, ◌≡◌, ◌≢◌, refl, ap, ◌∙◌, sym, subst,
  arith,
}
use gigmcp.Api.Envelope.{
  EnvelopeWriter, Call, header, body, new_envelope, write_header, write, call, serve, raw, envelope,
  flush, envelope_mux,
}

-- The status that net/http sends for the calls: that of the first WriteHeader, if no body came
-- first.
abbrev pub status_of : List Call → ℕ
status_of [] = 200
status_of (header code ∷ calls) = code
status_of (body b ∷ calls) = 200

abbrev pub body_of : List Call → Text
body_of [] = []
body_of (header code ∷ calls) = body_of calls
body_of (body b ∷ calls) = b ++ body_of calls

append_nil : (s : Text) → s ++ [] ≡ s
append_nil [] = refl
append_nil (c ∷ s) = ap (λ (r : Text). c ∷ r) (append_nil s)

append_assoc : (r s t : Text) → (r ++ s) ++ t ≡ r ++ (s ++ t)
append_assoc [] s t = refl
append_assoc (c ∷ r) s t = ap (λ (u : Text). c ∷ u) (append_assoc r s t)

header_ignored :
    (ew : EnvelopeWriter) (code : ℕ) → ew.wrote_header ≡ true → call ew (header code) ≡ ew
unfolding call write_header
header_ignored ew code h = ground (arith, h)

body_added :
    (ew : EnvelopeWriter) (b : Text)
    → ew.wrote_header ≡ true
    → call ew (body b) ≡ record ew { buf = ew.buf ++ b }
unfolding call write write_header
body_added ew b h = ground (arith, h)

-- Once the status is set no call changes it, and the bodies are added.
serve_started :
    (ew : EnvelopeWriter) (calls : List Call)
    → ew.wrote_header ≡ true
    → ((serve ew calls).status ≡ ew.status) × ((serve ew calls).buf ≡ ew.buf ++ body_of calls)
unfolding serve
serve_started ew [] h = (refl, sym (append_nil ew.buf))
serve_started ew (header code ∷ calls) h =
    subst
      (λ (x : EnvelopeWriter).
        ((serve x calls).status ≡ ew.status) × ((serve x calls).buf ≡ ew.buf ++ body_of calls))
      (sym (header_ignored ew code h)) (serve_started ew calls h)
serve_started ew (body b ∷ calls) h =
    let later = serve_started (record ew { buf = ew.buf ++ b }) calls h in
    subst
      (λ (x : EnvelopeWriter).
        ((serve x calls).status ≡ ew.status)
        × ((serve x calls).buf ≡ ew.buf ++ (b ++ body_of calls)))
      (sym (body_added ew b h)) (later.0, later.1 ∙ append_assoc ew.buf b (body_of calls))

serve_new :
    (calls : List Call)
    → ((serve new_envelope calls).status ≡ status_of calls)
      × ((serve new_envelope calls).buf ≡ body_of calls)
unfolding serve call write write_header
serve_new [] = (refl, refl)
serve_new (header code ∷ calls) =
    serve_started (record { buf = []; status = code; wrote_header = true }) calls refl
serve_new (body b ∷ calls) =
    serve_started (record { buf = b; status = 200; wrote_header = true }) calls refl

-- The reply of a handler whose status is not 404 or 405, or whose content is JSON, reaches the
-- client with the status that net/http would have sent and the bodies in their order; any other 404
-- or 405 reaches it as the JSON error of that status.
pub envelope_mux_lem :
    (content_type allow : Text) (calls : List Call)
    → ((status_of calls ≢ 404) × (status_of calls ≢ 405)
        → envelope_mux content_type allow calls ≡ raw (status_of calls) (body_of calls))
      × (has_prefix content_type (lit "application/json") ≡ true
          → envelope_mux content_type allow calls ≡ raw (status_of calls) (body_of calls))
      × (has_prefix content_type (lit "application/json") ≡ false
          → status_of calls ≡ 404
          → envelope_mux content_type allow calls
            ≡ envelope 404 (lit "not_found") (lit "not found"))
      × (has_prefix content_type (lit "application/json") ≡ false
          → status_of calls ≡ 405
          → envelope_mux content_type allow calls
            ≡ envelope 405
                (lit "method_not_allowed")
                (lit "method not allowed; allowed: " ++ allow))
unfolding envelope_mux flush
envelope_mux_lem content_type allow calls =
    let (status, text) = serve_new calls in
    (
      λ h. ground (arith, status, text, h.0, h.1),
      λ h. ground (arith, status, text, h),
      λ h e. ground (arith, status, h, e),
      λ h e. ground (arith, status, h, e),
    )
