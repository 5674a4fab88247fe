-- ===== src/Http/Methods.antt =====
-- `read_method` of the HTTP filter, against the names of the methods.
use erda_agent.Base.{
  ℕ, zero, suc, ◌+◌, ◌≤◌, ◌≡◌, ◌≢◌, ◌↔◌, refl, List, [], ◌∷◌, ◌++◌, Bool, true, false, ◌||◌, u32,
  length, take, arith, codes, starts_with, if◌then◌else◌,
}
use erda_agent.Http.{
  HttpMethod, http_request, http_method_unknown, http_get, http_post, http_put, http_delete,
  http_head, http_options, http_patch, Prefix, read_method,
}

-- The name of a method.
unfoldable pub method_name : HttpMethod → List ℕ
method_name http_method_unknown = []
method_name http_get = codes "GET"
method_name http_post = codes "POST"
method_name http_put = codes "PUT"
method_name http_delete = codes "DELETE"
method_name http_head = codes "HEAD"
method_name http_options = codes "OPTIONS"
method_name http_patch = codes "PATCH"

-- Does the payload begin with the method, a space and a target in origin form (`/...`), or in
-- asterisk form for OPTIONS?
unfoldable pub begins_with_method : HttpMethod → List ℕ → Bool
unfolding method_name
begins_with_method http_method_unknown p = false
begins_with_method http_options p =
    starts_with (method_name http_options ++ codes " /") p
    || starts_with (method_name http_options ++ codes " *") p
begins_with_method m p = starts_with (method_name m ++ codes " /") p

pub starts_with-take :
    (n : ℕ) (xs ys : List ℕ) → length xs ≤ n → starts_with xs (take n ys) ≡ starts_with xs ys
starts_with-take n [] ys h = refl
starts_with-take zero (x ∷ xs) ys h = absurd (omega arith)
starts_with-take (suc n) (x ∷ xs) [] h = refl
starts_with-take (suc n) (x ∷ xs) (y ∷ ys) h = cc (starts_with-take n xs ys (omega arith))

-- The test that stands for a method among the seven.
chosen : HttpMethod → (get post put delete head options patch : Bool) → Bool
chosen http_method_unknown get post put delete head options patch = false
chosen http_get get post put delete head options patch = get
chosen http_post get post put delete head options patch = post
chosen http_put get post put delete head options patch = put
chosen http_delete get post put delete head options patch = delete
chosen http_head get post put delete head options patch = head
chosen http_options get post put delete head options patch = options
chosen http_patch get post put delete head options patch = patch

-- The chain of `read_method` on the results of its tests.
chain : (get post put delete head options patch : Bool) → Prefix → Prefix
chain get post put delete head options patch x =
    if get
    then record x { method = http_get; offset = u32 (x.offset + 4) }
    else if post
    then record x { method = http_post; offset = u32 (x.offset + 5) }
    else if put
    then record x { method = http_put; offset = u32 (x.offset + 4) }
    else if delete
    then record x { method = http_delete; offset = u32 (x.offset + 7) }
    else if head
    then record x { method = http_head; offset = u32 (x.offset + 5) }
    else if options
    then record x { method = http_options; offset = u32 (x.offset + 8) }
    else if patch
    then record x { method = http_patch; offset = u32 (x.offset + 6) }
    else x

-- The first two bytes tell the methods apart, so the order of the tests does not matter.
chain_lem :
    (m : HttpMethod) (a b o : ℕ) (get post put delete head options patch : Bool)
    → (get ≡ true → a ≡ b'G')
    → (post ≡ true → (a ≡ b'P') × (b ≡ b'O'))
    → (put ≡ true → (a ≡ b'P') × (b ≡ b'U'))
    → (delete ≡ true → a ≡ b'D')
    → (head ≡ true → a ≡ b'H')
    → (options ≡ true → a ≡ b'O')
    → (patch ≡ true → (a ≡ b'P') × (b ≡ b'A'))
    → m ≢ http_method_unknown
    → let x =
        chain get post put delete head options patch
          (record { offset = o; method = http_method_unknown; phase = http_request }) in
      ((x.method ≡ m) ↔ (chosen m get post put delete head options patch ≡ true))
      × (x.method ≡ m → x.offset ≡ u32 (o + (length (method_name m) + 1)))
      × (x.phase ≡ http_request)
unfolding chain chosen method_name
chain_lem http_method_unknown a b o g p u d h s c = ground arith
chain_lem http_get a b o g p u d h s c = ground arith
chain_lem http_post a b o g p u d h s c = ground arith
chain_lem http_put a b o g p u d h s c = ground arith
chain_lem http_delete a b o g p u d h s c = ground arith
chain_lem http_head a b o g p u d h s c = ground arith
chain_lem http_options a b o g p u d h s c = ground arith
chain_lem http_patch a b o g p u d h s c = ground arith

begins_with_method-eq-chosen :
    (m : HttpMethod) (p : List ℕ)
    → begins_with_method m p
      ≡ chosen m
          (starts_with (codes "GET /") p)
          (starts_with (codes "POST /") p)
          (starts_with (codes "PUT /") p)
          (starts_with (codes "DELETE /") p)
          (starts_with (codes "HEAD /") p)
          (starts_with (codes "OPTIONS /") p || starts_with (codes "OPTIONS *") p)
          (starts_with (codes "PATCH /") p)
unfolding begins_with_method chosen method_name
begins_with_method-eq-chosen http_method_unknown p = refl
begins_with_method-eq-chosen http_get p = refl
begins_with_method-eq-chosen http_post p = refl
begins_with_method-eq-chosen http_put p = refl
begins_with_method-eq-chosen http_delete p = refl
begins_with_method-eq-chosen http_head p = refl
begins_with_method-eq-chosen http_options p = refl
begins_with_method-eq-chosen http_patch p = refl

-- A method is read where the first bytes name it, and the offset then moves to the target.
pub read_method_lem :
    (m : HttpMethod) (a b : ℕ) (p : List ℕ) (o : ℕ)
    → m ≢ http_method_unknown
    → let x =
        read_method
          (a ∷ b ∷ p)
          (record { offset = o; method = http_method_unknown; phase = http_request }) in
      ((x.method ≡ m) ↔ (begins_with_method m (a ∷ b ∷ p) ≡ true))
      × (x.method ≡ m → x.offset ≡ u32 (o + (length (method_name m) + 1)))
      × (x.phase ≡ http_request)
unfolding read_method chain
read_method_lem m a b tail o known =
    let p = a ∷ b ∷ tail in
    rw (begins_with_method-eq-chosen m p) (
      chain_lem m a b o (starts_with (codes "GET /") p) (starts_with (codes "POST /") p)
        (starts_with (codes "PUT /") p) (starts_with (codes "DELETE /") p)
        (starts_with (codes "HEAD /") p)
        (starts_with (codes "OPTIONS /") p || starts_with (codes "OPTIONS *") p)
        (starts_with (codes "PATCH /") p) (λ e. ground (arith, e)) (λ e. ground (arith, e))
        (λ e. ground (arith, e)) (λ e. ground (arith, e)) (λ e. ground (arith, e))
        (λ e. ground (arith, e)) (λ e. ground (arith, e)) known)
