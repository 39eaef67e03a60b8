-- ===== src/PhpCount/Rotation/Alone.antt =====
-- A call of `id_hash` that no other thread and no tick of the clock interrupts: the model of
-- PhpCount, which reads the key in one step, is that of the threads.
use crackstation_rust.Base.{ℕ, Option, none, some, Option-cases, Bool-cases, inl, inr, ◌≡◌}
use crackstation_rust.PhpCount.{VisitorKey, KeyReading, rotate, is_expired, refreshed}
use crackstation_rust.PhpCount.Rotation.{
  Call, called, keyed, panicked, Keys, overwrite, rotated, struck, hold, pass,
}

abbrev again : KeyReading → Call × Keys → Call × Keys
again r (call, keys) = pass r.entropy r.instant call keys

-- The call that has the key, or has panicked.
abbrev ended : ℕ → Option VisitorKey → Call
ended began none = panicked
ended began (some key) = keyed began key

-- Three passes of the lock are a call at most.
pub pass_alone :
    (r : KeyReading) (keys : Keys)
    → keys.visitor_key ≡ r.visitor_key
    → keys.poisoned ≡ r.poisoned
    → (again r (again r (again r (called, keys)))).0 ≡ ended r.instant (refreshed r)
unfolding pass hold struck rotated overwrite refreshed
pass_alone r keys e p = elim (Bool-cases r.poisoned) [
  | inl poisoned ↦ simp (p, poisoned)
  | inr sound ↦ elim (Bool-cases (is_expired r.instant r.visitor_key)) [
    | inr young ↦ simp (e, p, sound, young)
    | inl old ↦ elim (Option-cases (rotate r.entropy r.instant r.visitor_key)) [
      | inl dry ↦ simp (e, p, sound, old, dry)
      | inr (fresh, drawn) ↦ simp (e, p, sound, old, drawn)
    ]
  ]
]
