-- ===== src/Throttle/Oob/Settings.antt =====
-- The limits that OOB_RefreshCfg leaves behind.
use japlusproxy.Prelude.{
  ℕ, ◌/◌, ◌<◌, ◌≡◌, refl, ◌⊎◌, inl, inr, Bytes, codes, none, some, Bool, true, not, ◌&&◌, arith,
  Bool-cases,
}
use japlusproxy.Prelude.Int.{ℤ, pos, negsuc, ◌-ℤ◌, ◌≤ℤ◌, ◌==ℤ◌, ltb_ℤ, c_div, wrap32}
use japlusproxy.Engine.{proxy_cvar_int}
use japlusproxy.Throttle.Oob.{Config, limit_of, refresh_cfg}

-- A limit that the divisions and the buckets can take.
abbrev pub IsLimit : ℤ → Type 0
IsLimit v = (pos 1 ≤ℤ v) × (v ≤ℤ pos 1000)

-- The settings are not loaded yet, or are in range.
abbrev pub IsSane : Config → Type 0
IsSane c = (c.time ≡ pos 0) ⊎ (IsLimit c.ip × IsLimit c.all)

limit_of-IsLimit : (v fallback : ℤ) → IsLimit fallback → IsLimit (limit_of v fallback)
unfolding limit_of
limit_of-IsLimit v fallback h = ground arith

abbrev is_recent : ℤ → Config → Bool
is_recent now c = not (c.time ==ℤ pos 0) && ltb_ℤ (wrap32 (now -ℤ c.time)) (pos 5000)

kept : (now : ℤ) (c : Config) → is_recent now c ≡ true → IsSane c → IsLimit c.ip × IsLimit c.all
kept now c recent (inl unset) = cc (rw unset at recent)
kept now c recent (inr loaded) = loaded

div-pos : (v : ℕ) → IsLimit (pos v) → 0 < 1000 / v
div-pos v h = grind arith

-- Whatever the engine answers, the limits in force after a refresh are from 1 to 1000, also when
-- the clock reads 0.
pub refresh_cfg-IsLimit :
    (cvar : Bytes → ℤ) (now : ℤ) (c : Config)
    → IsSane c
    → IsLimit (refresh_cfg cvar now c).ip × IsLimit (refresh_cfg cvar now c).all
unfolding refresh_cfg
refresh_cfg-IsLimit cvar now c h = elim (Bool-cases (is_recent now c)) [
  | inl recent ↦ rw recent (kept now c recent h)
  | inr stale ↦ rw stale (
    limit_of-IsLimit (cvar (codes "sv_maxOOBRateIP")) (pos 1) (omega arith),
    limit_of-IsLimit (cvar (codes "sv_maxOOBRate")) (pos 1000) (omega arith),
  )
]

-- The periods that OOB_ShouldDrop divides out are positive, so its rates are in force.
period_pos : (v : ℤ) → IsLimit v → (n : ℕ) × (c_div (pos 1000) v ≡ pos n) × (0 < n)
period_pos (pos v) h = (1000 / v, refl, div-pos v h)
period_pos (negsuc v) h = absurd (omega arith)

-- Before the engine is up, the settings are the compiled defaults.
no_engine :
    (now : ℤ) (c : Config)
    → c.time ≡ pos 0
    → refresh_cfg (λ name. proxy_cvar_int none (some name)) now c
      ≡ record { ip = pos 1; all = pos 1000; time = now }
unfolding refresh_cfg limit_of proxy_cvar_int
no_engine now c unset = rw unset refl
