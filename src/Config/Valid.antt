-- ===== src/Config/Valid.antt =====
-- internal/config/config.go: what holds of every configuration that Parse accepts.
use mathlib.Core.Path.{subst}
use opencode_backend.Base.{
  ◌-◌, ltb, ℕ, zero, suc, ◌*◌, ◌≤◌, Bool, true, false, String, Option, none, some, [], ◌∷◌, ◌≡◌,
  ◌⊎◌, inl, inr, refl, sym, ap, arith, Bool-cases, ◌==◌,
}
use opencode_backend.Base.Int.{ℤ, pos, negsuc}
use opencode_backend.Automation.Text.{Text, codes}
use opencode_backend.Stt.Runes.{equal_runes, equal_runes-eq}
use opencode_backend.Config.{
  bad_flags, bad_driver, missing_dsn, parsed_flags, default_flags, missing_dsn, bad_driver,
  default_flags, bad_flags, ltz, clamp_int, stt_timeout_or_default, default_stt_timeout,
  trim_slashes, unless_last, is_blank, Config, Flags, config_of, parse, parsed, checked_config,
  Parsed,
}

-- A number from `lo` to `hi`.
pub record IsBetween (lo hi : ℕ) (z : ℤ) : Type 0 where
  pub number : ℕ
  pub reads : z ≡ pos number
  pub lower : lo ≤ number
  pub upper : number ≤ hi

clamp_int-IsBetween :
    (n : ℤ) (lo hi : ℕ) → lo ≤ hi → IsBetween lo hi (clamp_int n (pos lo) (pos hi))
unfolding clamp_int ltz
clamp_int-IsBetween (negsuc n) lo hi h = record {
  number = lo;
  reads = refl;
  lower = omega arith;
  upper = h;
}
clamp_int-IsBetween (pos n) lo hi h = elim (Bool-cases (ltb n lo)) [
  | inl low ↦ record { number = lo; reads = rw low refl; lower = omega arith; upper = h }
  | inr high ↦ elim (Bool-cases (ltb hi n)) [
    | inl above ↦ record {
      number = hi;
      reads = rw (high, above) refl;
      lower = h;
      upper = omega arith;
    }
    | inr within ↦ record {
      number = n;
      reads = rw (high, within) refl;
      lower = ground arith;
      upper = ground arith;
    }
  ]
]

stt_timeout_or_default-pos :
    (d : ℤ) → (n : ℕ) × (stt_timeout_or_default d default_stt_timeout ≡ pos (suc n))
unfolding stt_timeout_or_default ltz
stt_timeout_or_default-pos (pos zero) = (30 * 1000000000 - 1, refl)
stt_timeout_or_default-pos (pos (suc n)) = (n, ground arith)
stt_timeout_or_default-pos (negsuc n) = (30 * 1000000000 - 1, refl)

unfoldable pub ends_in_slash : Text → Bool
ends_in_slash [] = false
ends_in_slash (c ∷ []) = c == b'/'
ends_in_slash (c ∷ d ∷ ds) = ends_in_slash (d ∷ ds)

unless_last-ends :
    (c : ℕ) (t : Text) → ends_in_slash t ≡ false → ends_in_slash (unless_last c t) ≡ false
unfolding ends_in_slash
unless_last-ends c [] h = elim (Bool-cases (c == b'/')) [
  | inl slash ↦ rw slash refl
  | inr other ↦ rw other other
]
unless_last-ends c (d ∷ ds) h = h

trim_slashes-ends : (t : Text) → ends_in_slash (trim_slashes t) ≡ false
unfolding trim_slashes ends_in_slash
trim_slashes-ends [] = refl
trim_slashes-ends (c ∷ cs) = unless_last-ends c (trim_slashes cs) (trim_slashes-ends cs)

-- A supported driver, with an address where it needs one; numbers in their ranges; a positive
-- timeout; and base URLs that a path can follow.
pub record IsValid (c : Config) : Type 0 where
  pub driver :
      (c.db_driver ≡ codes "sqlite")
      ⊎ ((c.db_driver ≡ codes "postgres") × (is_blank c.postgres_dsn ≡ false))
  pub workers : IsBetween 1 64 c.workers
  pub chunk : IsBetween 1024 (8 * 1024 * 1024) c.stt_max_chunk_bytes
  pub timeout : (n : ℕ) × (c.stt_timeout ≡ pos (suc n))
  pub urls :
      (ends_in_slash c.opencode_url ≡ false)
      × (ends_in_slash c.llm_url ≡ false)
      × (ends_in_slash c.stt_url ≡ false)

config_of-IsValid :
    (driver : Text) (f : Flags)
    → (driver ≡ codes "sqlite") ⊎ ((driver ≡ codes "postgres") × (is_blank f.pg_dsn ≡ false))
    → IsValid (config_of driver f)
unfolding config_of
config_of-IsValid driver f known = record {
  driver = known;
  workers = clamp_int-IsBetween f.workers 1 64 (omega arith);
  chunk = clamp_int-IsBetween f.stt_max_chunk_bytes 1024 (8 * 1024 * 1024) (omega arith);
  timeout = stt_timeout_or_default-pos f.stt_timeout;
  urls =
      (trim_slashes-ends f.opencode_url, trim_slashes-ends f.llm_url, trim_slashes-ends f.stt_url);
}

-- Why Parse refuses the flags, or a valid configuration of them.
abbrev pub IsAnswer : (Text → Text) → Option Flags → Parsed → Type 0
IsAnswer lower none p = p ≡ bad_flags
IsAnswer lower (some f) p =
    ((p ≡ bad_driver)
      × (equal_runes (lower f.db) (codes "sqlite") ≡ false)
      × (equal_runes (lower f.db) (codes "postgres") ≡ false))
    ⊎ (((p ≡ missing_dsn) × (lower f.db ≡ codes "postgres") × (is_blank f.pg_dsn ≡ true))
        ⊎ ((p ≡ parsed (config_of (lower f.db) f)) × IsValid (config_of (lower f.db) f)))

postgres-IsAnswer :
    (lower : Text → Text) (f : Flags)
    → equal_runes (lower f.db) (codes "sqlite") ≡ false
    → equal_runes (lower f.db) (codes "postgres") ≡ true
    → IsAnswer lower (some f) (checked_config (lower f.db) f)
postgres-IsAnswer lower f other same = elim (Bool-cases (is_blank f.pg_dsn)) [
  | inl blank ↦ inr (
      inl
        (rw (other, same, blank) refl, equal_runes-eq (lower f.db) (codes "postgres") same, blank))
  | inr given ↦ inr (
      inr (
        rw (other, same, given) refl,
        config_of-IsValid (lower f.db) f
            (inr (equal_runes-eq (lower f.db) (codes "postgres") same, given)),
      ))
]

sqlite-IsAnswer :
    (lower : Text → Text) (f : Flags)
    → equal_runes (lower f.db) (codes "sqlite") ≡ true
    → IsAnswer lower (some f) (checked_config (lower f.db) f)
unfolding equal_runes
sqlite-IsAnswer lower f same =
    let named = equal_runes-eq (lower f.db) (codes "sqlite") same in
    let other : equal_runes (lower f.db) (codes "postgres") ≡ false =
      ap (λ t. equal_runes t (codes "postgres")) named in
    inr (inr (rw (same, other) refl, config_of-IsValid (lower f.db) f (inl named)))

checked_config-IsAnswer :
    (lower : Text → Text) (f : Flags) → IsAnswer lower (some f) (checked_config (lower f.db) f)
checked_config-IsAnswer lower f = elim (Bool-cases (equal_runes (lower f.db) (codes "sqlite"))) [
  | inl sqlite ↦ sqlite-IsAnswer lower f sqlite
  | inr other ↦ elim (Bool-cases (equal_runes (lower f.db) (codes "postgres"))) [
    | inl postgres ↦ postgres-IsAnswer lower f other postgres
    | inr neither ↦ inl (rw (other, neither) refl, other, neither)
  ]
]

-- Parse refuses flags that do not parse, a driver other than sqlite and postgres, and postgres
-- without an address, or it gives a configuration with 1 to 64 workers, chunks of 1 KiB to 8 MiB, a
-- positive timeout, and base URLs without a slash at the end.
pub parse-IsAnswer :
    (env : String → Option Text) (duration : Text → Option ℤ) (lower : Text → Text)
    (flags : Flags → Option Flags) (given : Option Flags)
    → flags (default_flags env duration) ≡ given
    → IsAnswer lower given (parse env duration lower flags)
unfolding parse
parse-IsAnswer env duration lower flags none e = rw e refl
parse-IsAnswer env duration lower flags (some f) e =
    subst (λ g. IsAnswer lower (some f) (parsed_flags lower g)) (sym e)
      (checked_config-IsAnswer lower f)
