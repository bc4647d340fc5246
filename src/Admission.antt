-- ===== src/Admission.antt =====
-- Admission of requests by their number and the bytes of their bodies: internal/audit/runtime.go.
-- The addresses of trusted proxies are left out of the configuration.
pub mod Budget
use deepseek_moderation_api.Prelude.{
  ℕ, ◌+◌, ◌-◌, ◌*◌, ◌^◌, Bool, true, false, ◌||◌, ltb, leb, if◌then◌else◌, min, Result, ok, err,
  problem, internal, refuse_if, ◌>>◌, ◌>>=◌,
}
use deepseek_moderation_api.Prelude.Int.{ℤ, pos, negsuc}

pub record RuntimeConfig : Type 0 where
  pub model_concurrency : ℕ
  pub request_concurrency : ℕ
  pub request_body_mib : ℕ
  pub trial_concurrency : ℕ
  pub max_images : ℕ
  pub ingress_rpm : ℕ
  pub ingress_ip_rpm : ℕ

abbrev pub default_runtime_config : RuntimeConfig
default_runtime_config = record {
  model_concurrency = 16;
  request_concurrency = 32;
  request_body_mib = 128;
  trial_concurrency = 2;
  max_images = 16;
  ingress_rpm = 6000;
  ingress_ip_rpm = 600;
}

abbrev outside : ℕ → ℕ → ℕ → Bool
outside low high n = ltb n low || ltb high n

-- Its limits; true where `Validate` returns nil for them.
unfoldable pub validate : RuntimeConfig → Bool
validate c =
    if outside 1 1000000 c.ingress_rpm || outside 1 c.ingress_rpm c.ingress_ip_rpm
    then false
    else if outside 1 256 c.model_concurrency
        || outside 1 1024 c.request_concurrency
        || outside 32 4096 c.request_body_mib
        || outside 1 c.model_concurrency c.trial_concurrency
        || outside 1 256 c.max_images
    then false
    else true

pub record RequestAdmission : Type 0 where
  pub active : ℕ
  pub bytes : ℕ

abbrev pub byte_budget : RuntimeConfig → ℕ
byte_budget c = c.request_body_mib * 2 ^ 20

-- The bytes that a request counts with: an unknown length is the limit.
abbrev pub counted_length : ℤ → ℕ → ℕ
counted_length (pos n) limit = n
counted_length (negsuc n) limit = limit

abbrev pub is_too_large : ℤ → ℕ → Bool
is_too_large (pos n) limit = ltb limit n
is_too_large (negsuc n) limit = false

-- With the number of bytes that the returned function gives back.
unfoldable pub acquire : RuntimeConfig → RequestAdmission → ℤ → ℕ → RequestAdmission × Result ℕ
acquire c a length limit =
    let n = counted_length length limit in
    if is_too_large length limit
    then (a, err (problem 413 "body_too_large"))
    else if leb c.request_concurrency a.active || ltb (byte_budget c) (a.bytes + n)
    then (a, err (problem 503 "request_capacity_exceeded"))
    else (record { active = a.active + 1; bytes = a.bytes + n }, ok n)

unfoldable pub release : ℕ → RequestAdmission → RequestAdmission
release n a = record { active = a.active - 1; bytes = a.bytes - n }
