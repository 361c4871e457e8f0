-- ===== src/RequestBody/Extracted.antt =====
-- What is extracted of a body that nginx holds in its buffers.
use ngx_http_crowdsec_module.Base.{
  ℕ, ◌+◌, ◌≤◌, ◌<◌, ◌≡◌, refl, ap, sym, Bool, ◌&&◌, Option, none, some, List, [], ◌∷◌, ◌++◌, ltb,
  length, length-append, arith, ◌⊎◌, inl, inr, Bool-cases,
}
use mathlib.Core.List.{append_assoc, append-nil}
use ngx_http_crowdsec_module.RequestBody.{
  BodyExtractResult, body, too_large, Files, BodyRequest, RequestBody, bytes_in, gather,
  extract_request_body_limited,
}

-- The bytes of all buffers.
abbrev pub content : List (Option (List ℕ)) → List ℕ
content [] = []
content (buf ∷ chain) = bytes_in buf ++ content chain

-- A body that is in the bound comes whole; any other is too large.
abbrev pub Bounded : ℕ → List ℕ → BodyExtractResult → Type 0
Bounded max_bytes bytes r =
    ((r ≡ body bytes) × (length bytes ≤ max_bytes)) ⊎ ((r ≡ too_large) × (max_bytes < length bytes))

gather-Bounded :
    (max_bytes : ℕ) (chain : List (Option (List ℕ))) (result : List ℕ)
    → length result ≤ max_bytes
    → Bounded max_bytes (result ++ content chain) (gather max_bytes chain result)
unfolding gather
gather-Bounded max_bytes [] result h =
    inl (ap body (sym (append-nil result)), rw (append-nil result) h)
gather-Bounded max_bytes (buf ∷ chain) result h =
    elim (Bool-cases
      (ltb 0 (length (bytes_in buf)) && ltb max_bytes (length result + length (bytes_in buf)))) [
        | inl over ↦ rw over (
            inr (
              refl,
              ground (
                arith,
                length-append result (bytes_in buf ++ content chain),
                length-append (bytes_in buf) (content chain),
              ),
            ))
        | inr fits ↦
            rw (fits, ← append_assoc result (bytes_in buf) (content chain))
              (gather-Bounded max_bytes chain (result ++ bytes_in buf)
                (ground (arith, length-append result (bytes_in buf))))
      ]

-- The body in the buffers of a request is what they hold one behind the other, if that is at most
-- the bound; else it is refused as too large.
pub extract_request_body_limited-Bounded :
    (files : Files) (r : BodyRequest) (b : RequestBody) (max_bytes : ℕ) (read_temp_file : Bool)
    → r.request_body ≡ some b
    → b.temp_file ≡ none
    → Bounded max_bytes
        (content b.bufs)
        (extract_request_body_limited files r max_bytes read_temp_file)
unfolding extract_request_body_limited
extract_request_body_limited-Bounded files r b max_bytes read_temp_file e f =
    rw (e, f) (gather-Bounded max_bytes b.bufs [] (omega arith))
