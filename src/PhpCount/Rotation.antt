-- ===== src/PhpCount/Rotation.antt =====
-- `id_hash` of libs/phpcount.rs in threads that run at the same time: each call passes the lock of the
-- visitor key up to three times, and the others may pass it in between.
pub mod Ages
mod Alone
mod Tests
use crackstation_rust.Base.{
  ℕ, ◌+◌, Option, none, some, Bool, true, false, List, [], ◌∷◌, Text, ◌==◌, if◌then◌else◌, ◌≡◌,
  refl,
}
use crackstation_rust.PhpCount.Threads.{update}
use crackstation_rust.PhpCount.{
  VisitorKey, KeyReading, rotate, is_expired, refreshed, visitor_key_lifetime,
}

-- A call of `id_hash`: not begun; past the first test, which found the key expired, or not; or with
-- the key that it computes the identifier with; or panicked. It keeps the second at which it began.
pub data Call : Type 0 where
  called : Call
  expired : ℕ → Call
  checked : ℕ → Call
  keyed : ℕ → VisitorKey → Call
  panicked : Call

-- The shared key, those that it has overwritten, newest first, and whether its lock is poisoned.
pub record Keys : Type 0 where
  pub visitor_key : VisitorKey
  pub overwritten : List VisitorKey
  pub poisoned : Bool

-- `key.rotate()` in place, where a new key is drawn.
pub overwrite : VisitorKey → Keys → Keys
overwrite fresh keys = record keys {
  visitor_key = fresh;
  overwritten = keys.visitor_key ∷ keys.overwritten;
}

-- The end of a rotation under the write lock: a panic poisons it.
pub rotated : ℕ → Keys → Option VisitorKey → Call × Keys
rotated began keys none = (panicked, record keys { poisoned = true })
rotated began keys (some fresh) = (checked began, overwrite fresh keys)

-- `expect` on a poisoned lock, in a call that still takes it.
pub struck : Call → Call
struck (keyed began key) = keyed began key
struck _ = panicked

-- What a call does while it holds the lock: the test under the read lock; the second test under the
-- write lock, behind which the key is rotated; the reading of the key.
pub hold : Option Text → ℕ → Call → Keys → Call × Keys
hold entropy instant called keys =
    ((if is_expired instant keys.visitor_key then expired instant else checked instant), keys)
hold entropy instant (expired began) keys =
    if is_expired instant keys.visitor_key
    then rotated began keys (rotate entropy instant keys.visitor_key)
    else (checked began, keys)
hold entropy instant (checked began) keys = (keyed began keys.visitor_key, keys)
hold entropy instant (keyed began key) keys = (keyed began key, keys)
hold entropy instant panicked keys = (panicked, keys)

-- What a call does the next time that it takes the lock.
pub pass : Option Text → ℕ → Call → Keys → Call × Keys
pass entropy instant call keys =
    if keys.poisoned then (struck call, keys) else hold entropy instant call keys

-- The threads, and the monotonic clock, in seconds.
pub record System : Type 0 where
  pub keys : Keys
  pub instant : ℕ
  pub calls : ℕ → Call

pub data Step (s : System) : System → Type 0 where
  ticked : (seconds : ℕ) → Step s (record s { instant = s.instant + seconds })
  -- One thread takes the lock; where it rotates the key, the system draws the bytes, or none.
  passed :
      (i : ℕ) (entropy : Option Text)
      → Step s (record s {
        keys = (pass entropy s.instant (s.calls i) s.keys).1;
        calls = update s.calls i (pass entropy s.instant (s.calls i) s.keys).0;
      })

pub data Reach (s : System) : System → Type 0 where
  here : Reach s s
  later : {t u : System} → Reach s t → Step t u → Reach s u

-- The first key of the process, and no call begun.
abbrev pub fresh : VisitorKey → ℕ → System
fresh key instant = record {
  keys = record { visitor_key = key; overwritten = []; poisoned = false };
  instant = instant;
  calls = λ i. called;
}
