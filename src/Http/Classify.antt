-- ===== src/Http/Classify.antt =====
-- What `load_http_payload_prefix` takes for a request, against the request line of HTTP/1.
use erda_agent.Base.{
  ℕ, ◌+◌, ◌^◌, ◌≤◌, ◌<◌, ◌≡◌, ◌≢◌, ◌↔◌, refl, sym, ◌∙◌, List, [], ◌∷◌, Bool, true, false, leb, u32,
  sub32, length, take, drop, slice, arith, codes, starts_with, length-drop, replicate,
  if◌then◌else◌,
}
use erda_agent.Packet.{Skb}
use erda_agent.Packet.Bytes.{Reads}
use erda_agent.Http.{
  HttpMethod, http_phase_unknown, http_request, http_response, http_method_unknown, http_get,
  http_post, http_put, http_delete, http_head, http_options, http_patch, Prefix, read_method,
  read_prefix, load_http_payload_prefix,
}
use erda_agent.Http.Methods.{method_name, begins_with_method, starts_with-take, read_method_lem}

module _ (skb : Skb) (bytes : List ℕ) (reads : Reads skb bytes) where
  load_prefix_lem :
      (offset : ℕ)
      → offset + 9 ≤ length bytes
      → (skb.load_bytes offset (replicate 9 0)).1 ≡ slice offset 9 bytes
  load_prefix_lem offset h = rw (reads.in_range offset (replicate 9 0) (omega arith))

begins_with_method-take :
    (m : HttpMethod) (p : List ℕ) → begins_with_method m (take 9 p) ≡ begins_with_method m p
unfolding begins_with_method method_name
begins_with_method-take http_method_unknown p = refl
begins_with_method-take http_get p = starts_with-take 9 (codes "GET /") p (omega arith)
begins_with_method-take http_post p = starts_with-take 9 (codes "POST /") p (omega arith)
begins_with_method-take http_put p = starts_with-take 9 (codes "PUT /") p (omega arith)
begins_with_method-take http_delete p = starts_with-take 9 (codes "DELETE /") p (omega arith)
begins_with_method-take http_head p = starts_with-take 9 (codes "HEAD /") p (omega arith)
begins_with_method-take http_patch p = starts_with-take 9 (codes "PATCH /") p (omega arith)
begins_with_method-take http_options p = cc (
  starts_with-take 9 (codes "OPTIONS /") p (omega arith),
  starts_with-take 9 (codes "OPTIONS *") p (omega arith),
)

-- No request begins like a response.
response-no_method :
    (m : HttpMethod) (a b : ℕ) (p : List ℕ)
    → starts_with (codes "HTTP") (a ∷ b ∷ p) ≡ true
    → begins_with_method m (a ∷ b ∷ p) ≡ false
unfolding begins_with_method method_name
response-no_method http_method_unknown a b p h = refl
response-no_method http_get a b p h = ground arith
response-no_method http_post a b p h = ground arith
response-no_method http_put a b p h = ground arith
response-no_method http_delete a b p h = ground arith
response-no_method http_head a b p h = ground arith
response-no_method http_options a b p h = ground arith
response-no_method http_patch a b p h = ground arith

-- The classification of the nine bytes that are loaded.
unfoldable classify : List ℕ → ℕ → Prefix
unfolding read_method
classify p o =
    let x : Prefix = record {
      offset = o;
      method = http_method_unknown;
      phase = http_phase_unknown;
    } in
    if starts_with (codes "HTTP") p
    then record x { phase = http_response }
    else read_method p (record x { phase = http_request })

-- A response names no method; behind a failed test for a response the method decides.
either_lem :
    (h c : Bool) (m : HttpMethod) (o l : ℕ) (y : Prefix)
    → m ≢ http_method_unknown
    → (h ≡ true → c ≡ false)
    → ((y.method ≡ m) ↔ (c ≡ true)) × (y.method ≡ m → y.offset ≡ l) × (y.phase ≡ http_request)
    → let x : Prefix =
        (if h
          then record { offset = o; method = http_method_unknown; phase = http_response }
          else y) in
      ((x.phase ≡ http_response) ↔ (h ≡ true))
      × ((x.method ≡ m) ↔ (c ≡ true))
      × (x.method ≡ m → x.offset ≡ l)
either_lem true c m o l y known none_named r = ground arith
either_lem false c m o l y known none_named r = ground arith

classify_lem :
    (m : HttpMethod) (a b o : ℕ) (tail : List ℕ)
    → m ≢ http_method_unknown
    → let p = a ∷ b ∷ tail in
      let x = classify p o in
      ((x.phase ≡ http_response) ↔ (starts_with (codes "HTTP") p ≡ true))
      × ((x.method ≡ m) ↔ (begins_with_method m p ≡ true))
      × (x.method ≡ m → x.offset ≡ u32 (o + (length (method_name m) + 1)))
unfolding classify
classify_lem m a b o tail known =
    let p = a ∷ b ∷ tail in
    either_lem (starts_with (codes "HTTP") p) (begins_with_method m p) m o
      (u32 (o + (length (method_name m) + 1)))
      (read_method p (record { offset = o; method = http_method_unknown; phase = http_request }))
      known (response-no_method m a b tail) (read_method_lem m a b tail o known)

-- Behind more than nine bytes of payload, the prefix is classified.
read_prefix-eq-classify :
    (skb : Skb) (bytes : List ℕ) (offset : ℕ)
    → Reads skb bytes
    → offset + 9 < length bytes
    → length bytes < 2 ^ 32
    → read_prefix skb offset ≡ classify (slice offset 9 bytes) offset
unfolding read_prefix load_http_payload_prefix classify
read_prefix-eq-classify skb bytes offset reads long small =
    let load = load_prefix_lem skb bytes reads offset (omega arith) in
    let more : leb (sub32 (length bytes) offset) 9 ≡ false = ground arith in
    rw (load, reads.len_eq, more) refl

method_name_length : (m : HttpMethod) → length (method_name m) ≤ 7
unfolding method_name
method_name_length http_method_unknown = omega arith
method_name_length http_get = omega arith
method_name_length http_post = omega arith
method_name_length http_put = omega arith
method_name_length http_delete = omega arith
method_name_length http_head = omega arith
method_name_length http_options = omega arith
method_name_length http_patch = omega arith

classify-take :
    (m : HttpMethod) (o : ℕ) (q : List ℕ)
    → 2 ≤ length q
    → m ≢ http_method_unknown
    → let x = classify (take 9 q) o in
      ((x.phase ≡ http_response) ↔ (starts_with (codes "HTTP") q ≡ true))
      × ((x.method ≡ m) ↔ (begins_with_method m q ≡ true))
      × (x.method ≡ m → x.offset ≡ u32 (o + (length (method_name m) + 1)))
classify-take m o [] long known = absurd (omega arith)
classify-take m o (a ∷ []) long known = absurd (omega arith)
classify-take m o (a ∷ b ∷ q) long known =
    rw
      (
        sym (starts_with-take 9 (codes "HTTP") (a ∷ b ∷ q) (omega arith)),
        sym (begins_with_method-take m (a ∷ b ∷ q)),
      )
      (classify_lem m a b o (take 7 q) known)

-- With more than nine bytes of payload, `load_http_payload_prefix` takes it for a response exactly
-- if it begins with `HTTP`; it reads a method exactly if the payload begins with the method's name,
-- a space and a target in origin form (asterisk form too for OPTIONS); and the offset then points
-- to the target. The packet has less than 2 ^ 32 bytes.
pub read_prefix-IsRequestLine :
    (skb : Skb) (bytes : List ℕ) (offset : ℕ) (m : HttpMethod)
    → Reads skb bytes
    → offset + 9 < length bytes
    → length bytes < 2 ^ 32
    → m ≢ http_method_unknown
    → let x = read_prefix skb offset in
      let payload = drop offset bytes in
      ((x.phase ≡ http_response) ↔ (starts_with (codes "HTTP") payload ≡ true))
      × ((x.method ≡ m) ↔ (begins_with_method m payload ≡ true))
      × (x.method ≡ m → x.offset ≡ offset + length (method_name m) + 1)
read_prefix-IsRequestLine skb bytes offset m reads long small known =
    let c =
      classify-take m offset (drop offset bytes) (omega (arith, length-drop offset bytes)) known in
    rw (read_prefix-eq-classify skb bytes offset reads long small)
      (c.0, c.1, λ e. c.2 e ∙ omega (arith, method_name_length m))
