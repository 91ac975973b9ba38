-- ===== src/Api/Envelope.antt =====
-- internal/api/envelope.go: the writer around the inner mux, which turns the bare 404 and 405
-- replies of net/http into JSON errors.
pub mod Rewritten
use gigmcp.Base.{
  Text, List, [], ◌∷◌, ◌++◌, ℕ, Bool, true, false, not, ◌&&◌, ◌||◌, ◌==◌, comparable_text, nat_beq,
  has_prefix, if◌then◌else◌, lit,
}

pub record EnvelopeWriter : Type 0 where
  pub buf : Text
  pub status : ℕ
  pub wrote_header : Bool

-- What a handler does to its writer.
pub data Call : Type 0 where
  header : ℕ → Call
  body : Text → Call

abbrev pub new_envelope : EnvelopeWriter
new_envelope = record { buf = []; status = 200; wrote_header = false }

unfoldable pub write_header : ℕ → EnvelopeWriter → EnvelopeWriter
write_header code ew =
    if ew.wrote_header then ew else record ew { status = code; wrote_header = true }

unfoldable pub write : Text → EnvelopeWriter → EnvelopeWriter
unfolding write_header
write b ew =
    let started = if ew.wrote_header then ew else write_header 200 ew in
    record started { buf = started.buf ++ b }

unfoldable pub call : EnvelopeWriter → Call → EnvelopeWriter
unfolding write_header write
call ew (header code) = write_header code ew
call ew (body b) = write b ew

unfoldable pub serve : EnvelopeWriter → List Call → EnvelopeWriter
unfolding call
serve ew [] = ew
serve ew (c ∷ calls) = serve (call ew c) calls

-- What reaches the client: the handler's bytes, or the JSON error of a code and a message.
pub data Sent : Type 0 where
  raw : ℕ → Text → Sent
  envelope : ℕ → (code message : Text) → Sent

-- `content_type` and `allow` are headers, which are not buffered.
unfoldable pub flush : Text → Text → EnvelopeWriter → Sent
unfolding has_prefix
flush content_type allow ew =
    if (nat_beq ew.status 404 || nat_beq ew.status 405)
      && not (has_prefix content_type (lit "application/json"))
    then (if nat_beq ew.status 405
        then envelope 405 (lit "method_not_allowed") (lit "method not allowed; allowed: " ++ allow)
        else envelope 404 (lit "not_found") (lit "not found"))
    else raw ew.status ew.buf

unfoldable pub envelope_mux : Text → Text → List Call → Sent
unfolding serve flush
envelope_mux content_type allow calls = flush content_type allow (serve new_envelope calls)
