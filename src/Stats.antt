-- ===== src/Stats.antt =====
-- src/stats.rs and src/stats_server.rs: the routes of the statistics server, its token, its
-- responses, and the windows of the hashrate. Text is ASCII; the JSON of the summary, the sockets
-- and the arithmetic of `f64` are parameters.
pub mod Query
pub mod Header
pub mod Token
pub mod Windows
use Prim.Native.Nat.{bit_or, bit_xor}
use csd_mining_pool_public.Prelude.{
  ℕ, zero, suc, ◌+◌, ◌-◌, ◌*◌, Bool, true, false, not, ◌&&◌, ◌||◌, Option, none, some, List, [],
  ◌∷◌, ◌++◌, Text, codes, text_eq, length, ltb, leb, ◌==◌, if◌then◌else◌, get_elem?, u32,
}
use csd_mining_pool_public.Prelude.Ascii.{
  trim, strip_prefix, until, from_first, to_lowercase, split, is_whitespace, trim_start,
}
use csd_mining_pool_public.Prelude.Float.{F64, of_nat}

pub data StatsRoute : Type 0 where
  summary : StatsRoute
  health : StatsRoute
  not_found : StatsRoute

-- The words of a line, for a first word that is taken off by `split_whitespace`.
unfoldable pub first_word : Text → Text
unfolding until trim_start is_whitespace
first_word s = until is_whitespace (trim_start s)

unfoldable pub after_word : Text → Text
unfolding from_first trim_start is_whitespace
after_word s = from_first is_whitespace (trim_start s)

unfoldable pub word_of : Text → Option Text
word_of [] = none
word_of (c ∷ s) = some (c ∷ s)

unfoldable pub request_target : Text → Option Text
unfolding first_word after_word word_of
request_target line =
    if text_eq (first_word line) (codes "GET") then word_of (first_word (after_word line)) else none

unfoldable pub route : Text → StatsRoute
unfolding until
route path =
    let p = until (λ c. c == b'?') path in
    if text_eq p (codes "/1/summary")
    then summary
    else if text_eq p (codes "/summary")
    then summary
    else if text_eq p (codes "/")
    then summary
    else if text_eq p (codes "/healthz")
    then health
    else if text_eq p (codes "/health")
    then health
    else not_found

-- The loop of `ct_eq`, with the differences so far.
unfoldable pub differences : Text → Text → ℕ → ℕ
differences [] b diff = diff
differences (x ∷ a) [] diff = diff
differences (x ∷ a) (y ∷ b) diff = differences a b (bit_or diff (bit_xor x y))

unfoldable pub ct_eq : Text → Text → Bool
unfolding differences
ct_eq a b = if not (length a == length b) then false else differences a b 0 == 0

-- The value of a `token=…` pair; `none` if the pair is another one.
unfoldable pub token_pair : Text → Option (Option Text)
unfolding until from_first
token_pair pair =
    if text_eq (until (λ c. c == b'=') pair) (codes "token")
    then some (strip_prefix (codes "=") (from_first (λ c. c == b'=') pair))
    else none

unfoldable pub token_in : List Text → Option Text
unfolding token_pair
token_in [] = none
token_in (pair ∷ pairs) = elim (token_pair pair) [ some value ↦ value | none ↦ token_in pairs ]

unfoldable pub token_of_query : Option Text → Option Text
unfolding token_in split
token_of_query none = none
token_of_query (some query) = token_in (split (λ c. c == b'&') query)

-- The second piece of the split at `?`.
unfoldable pub query_token : Text → Option Text
unfolding token_of_query split
query_token target = token_of_query (get_elem? (split (λ c. c == b'?') target) 1)

-- What a header line gives: its token, if it is the header.
unfoldable pub bearer_of : Text → Option Text
unfolding trim to_lowercase until from_first strip_prefix
bearer_of line =
    if text_eq (to_lowercase (trim (until (λ c. c == b':') line))) (codes "authorization")
    then strip_prefix (codes "Bearer ")
        (trim (elim (from_first (λ c. c == b':') line) [ [] ↦ [] | c ∷ value ↦ value ]))
    else none

-- `bearer_token` on the lines of the head.
unfoldable pub bearer_token : List Text → Option Text
unfolding bearer_of
bearer_token [] = none
bearer_token (line ∷ lines) = elim (bearer_of line) [
  | some token ↦ some (trim token)
  | none ↦ bearer_token lines
]

-- A token that is there and is the password.
unfoldable pub matches : Option Text → Text → Bool
unfolding ct_eq
matches none expected = false
matches (some token) expected = ct_eq token expected

unfoldable pub authorized : Text → List Text → Option Text → Bool
unfolding matches query_token bearer_token
authorized target lines none = true
authorized target lines (some expected) =
    if matches (query_token target) expected then true else matches (bearer_token lines) expected

pub record HttpResponse : Type 0 where
  pub status : ℕ
  pub content_type : Text
  pub body : Text

-- The match on the route.
unfoldable pub serve_route :
    StatsRoute → Text → List Text → Option Text → Text → Text → HttpResponse
unfolding authorized
serve_route summary target lines password summary_body health_body =
    if authorized target lines password
    then record { status = 200; content_type = codes "application/json"; body = summary_body }
    else record { status = 401; content_type = codes "text/plain"; body = codes "unauthorized" }
serve_route health target lines password summary_body health_body = record {
  status = 200;
  content_type = codes "application/json";
  body = health_body;
}
serve_route not_found target lines password summary_body health_body = record {
  status = 404;
  content_type = codes "text/plain";
  body = codes "not found";
}

abbrev pub bad_request : HttpResponse
bad_request = record { status = 400; content_type = codes "text/plain"; body = codes "bad request" }

unfoldable pub serve_target : Option Text → List Text → Option Text → Text → Text → HttpResponse
unfolding serve_route route
serve_target none lines password summary_body health_body = bad_request
serve_target (some target) lines password summary_body health_body =
    serve_route (route target) target lines password summary_body health_body

unfoldable pub first_line : List Text → Text
first_line [] = []
first_line (line ∷ lines) = line

-- `serve_one`: the lines of the request's head, if it could be read, and the two bodies that the
-- server would send.
unfoldable pub serve_one : Option (List Text) → Option Text → Text → Text → HttpResponse
unfolding serve_target request_target first_line
serve_one none password summary_body health_body = bad_request
serve_one (some lines) password summary_body health_body =
    serve_target (request_target (first_line lines)) lines password summary_body health_body

abbrev pub window_15m_ms : ℕ
window_15m_ms = 15 * 60 * 1000

-- A sample: its time and its rate.
abbrev pub RateSample : Type 0
RateSample = ℕ × F64

-- The samples not older than a cutoff.
unfoldable pub retain : ℕ → List RateSample → List RateSample
retain cutoff [] = []
retain cutoff ((t, ghs) ∷ samples) =
    if leb cutoff t then (t, ghs) ∷ retain cutoff samples else retain cutoff samples

-- `HashrateWindows::record`.
unfoldable pub record_sample : F64 → ℕ → List RateSample → List RateSample
unfolding retain
record_sample ghs now_ms samples = retain (now_ms - window_15m_ms) (samples ++ ((now_ms, ghs) ∷ []))

-- The sum and the number of the samples, from those so far.
unfoldable pub total : (F64 → F64 → F64) → List RateSample → F64 → ℕ → F64 × ℕ
total add [] s c = (s, c)
total add ((t, g) ∷ samples) s c = total add samples (add s g) (u32 (c + 1))

unfoldable pub window_avg : (F64 → F64 → F64) → (F64 → ℕ → F64) → List RateSample → ℕ → ℕ → F64
unfolding total retain
window_avg add div samples now_ms span_ms =
    let (sum, n) = total add (retain (now_ms - span_ms) samples) (of_nat 0) 0 in
    if n == 0 then of_nat 0 else div sum n

-- `HashrateWindows::windows`.
unfoldable pub windows : (F64 → F64 → F64) → (F64 → ℕ → F64) → List RateSample → ℕ → F64 × F64 × F64
unfolding window_avg
windows add div samples now_ms = (
  window_avg add div samples now_ms (10 * 1000),
  window_avg add div samples now_ms (60 * 1000),
  window_avg add div samples now_ms window_15m_ms,
)
