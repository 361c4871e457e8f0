-- ===== src/RequestBody.antt =====
-- src/request_body.rs: the body of a request that nginx has read, the contexts that the module keeps
-- with a request, and what becomes of one. A request is what the code reads of it; the file that a
-- body was spooled to is read by a parameter.
pub mod Extracted
use ngx_http_crowdsec_module.Base.{
  ℕ, ◌+◌, Bool, true, false, not, ◌&&◌, ◌||◌, Option, none, some, List, [], ◌∷◌, ◌++◌, ltb, leb,
  ◌==◌, if◌then◌else◌, length, take, any,
}
use ngx_http_crowdsec_module.Base.Text.{Text}

abbrev pub appsec_body_ctx_magic : ℕ
appsec_body_ctx_magic = 0xA9905EC1

abbrev pub captcha_post_ctx_magic : ℕ
captcha_post_ctx_magic = 0x43504F53

pub data BodyExtractResult : Type 0 where
  body : List ℕ → BodyExtractResult
  unreadable too_large : BodyExtractResult

-- A file: whether it opens, and what one `read` into a buffer of a size gives.
pub record Files : Type 0 where
  pub from_utf8 : List ℕ → Option Text
  pub open_file : Text → Bool
  pub read_file : Text → ℕ → Option (List ℕ)

-- A buffer of the chain holds the bytes from `pos` to `last`, none where one of them is null.
pub record RequestBody : Type 0 where
  pub temp_file : Option (List ℕ)
  pub bufs : List (Option (List ℕ))

-- The fields of a request; a negative length is none.
pub record BodyRequest : Type 0 where
  pub content_length_n : Option ℕ
  pub chunked : Bool
  pub request_body : Option RequestBody

abbrev is_positive : Option ℕ → Bool
is_positive none = false
is_positive (some n) = ltb 0 n

unfoldable pub has_request_body : BodyRequest → Bool
has_request_body r = is_positive (r.content_length_n) || r.chunked

abbrev is_filled {ℓ} : {A : Type ℓ} → List A → Bool
is_filled [] = false
is_filled (_ ∷ _) = true

abbrev has_file : Option (List ℕ) → Bool
has_file none = false
has_file (some _) = true

unfoldable pub request_body_buffered : BodyRequest → Bool
request_body_buffered r = elim (r.request_body) [
  | none ↦ false
  | some b ↦ is_filled (b.bufs) || has_file (b.temp_file)
]

abbrev read_path : Files → ℕ → Text → BodyExtractResult
read_path files max_bytes path =
    if not (files.open_file path) then unreadable else elim (files.read_file path (max_bytes + 1)) [
      | none ↦ unreadable
      | some bytes ↦ if ltb max_bytes (length bytes) then too_large else body bytes
    ]

unfoldable pub read_temp_file_body : Files → List ℕ → ℕ → BodyExtractResult
read_temp_file_body files [] max_bytes = unreadable
read_temp_file_body files (c ∷ name) max_bytes =
    if any (λ b. b == 0) (c ∷ name) then unreadable else elim (files.from_utf8 (c ∷ name)) [
      | none ↦ unreadable
      | some path ↦ read_path files max_bytes path
    ]

-- The loop over the chain, with what it has gathered.
abbrev pub bytes_in : Option (List ℕ) → List ℕ
bytes_in none = []
bytes_in (some bytes) = bytes

unfoldable pub gather : ℕ → List (Option (List ℕ)) → List ℕ → BodyExtractResult
gather max_bytes [] result = body result
gather max_bytes (buf ∷ chain) result =
    let rest = gather max_bytes chain (result ++ bytes_in buf) in
    if ltb 0 (length (bytes_in buf)) && ltb max_bytes (length result + length (bytes_in buf))
    then too_large
    else rest

unfoldable pub extract_request_body_limited : Files → BodyRequest → ℕ → Bool → BodyExtractResult
unfolding gather read_temp_file_body
extract_request_body_limited files r max_bytes read_temp_file = elim (r.request_body) [
  | none ↦ body []
  | some b ↦ elim (b.temp_file) [
    | some name ↦
        if not read_temp_file then unreadable else read_temp_file_body files name max_bytes
    | none ↦ gather max_bytes b.bufs []
  ]
]

-- What `ngx_http_read_client_request_body` returns, with the status of a special response.
pub data ReadResult : Type 0 where
  ok again failed : ReadResult
  special : ℕ → ReadResult

-- After `NGX_OK` and `NGX_AGAIN` the request is finalized with `NGX_DONE`.
unfoldable pub finish_phase_body_read : ReadResult → Bool
finish_phase_body_read ok = true
finish_phase_body_read again = true
finish_phase_body_read failed = false
finish_phase_body_read (special _) = false

-- What a callback does to the request at its end: the phases go on, it is finalized with a status,
-- or it is left alone.
pub data Action : Type 0 where
  finalize_allow left_alone : Action
  finalize : ℕ → Action
