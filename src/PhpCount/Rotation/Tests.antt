-- ===== src/PhpCount/Rotation/Tests.antt =====
-- Threads that find the visitor key of libs/phpcount.rs expired at the same time.
use crackstation_rust.Base.{
  ℕ, ◌+◌, ◌<◌, ◌==◌, [], ◌∷◌, some, codes, if◌then◌else◌, ◌≡◌, refl, arith,
}
use crackstation_rust.PhpCount.{VisitorKey, new_key, rotate, is_expired, visitor_key_lifetime}
use crackstation_rust.PhpCount.Rotation.{
  keyed, overwrite, rotated, hold, pass, System, ticked, passed, Reach, here, later, fresh,
}
use crackstation_rust.PhpCount.Rotation.Ages.{AreSpaced, Reach-AreSpaced, Reach-young}

abbrev first_key : VisitorKey
first_key = record { key = codes "a"; created = 0 }

-- 60 days later two threads test the key, and each then takes the write lock.
abbrev after_tick : System
after_tick = record (fresh first_key 0) { instant = 0 + visitor_key_lifetime }

abbrev turn : ℕ → System → System
turn i s = record s {
  keys = (pass (some (codes "b")) s.instant (s.calls i) s.keys).1;
  calls =
      λ j. if i == j then (pass (some (codes "b")) s.instant (s.calls i) s.keys).0 else s.calls j;
}

abbrev both_rotate : System
both_rotate = turn 0 (turn 1 (turn 0 (turn 1 (turn 0 after_tick))))

both_rotate-Reach : Reach (fresh first_key 0) both_rotate
both_rotate-Reach =
    later
      (later
        (later
          (later (later (later here (ticked visitor_key_lifetime)) (passed 0 (some (codes "b"))))
            (passed 1 (some (codes "b"))))
          (passed 0 (some (codes "b"))))
        (passed 1 (some (codes "b"))))
      (passed 0 (some (codes "b")))

-- The second of them leaves the key that the first has made.
rotated_once : both_rotate.keys.overwritten ≡ first_key ∷ []
unfolding pass hold rotated overwrite rotate new_key is_expired
rotated_once = refl

-- Thread 0 has the new key.
new_key_is_used :
    both_rotate.calls 0
    ≡ keyed visitor_key_lifetime (record { key = codes "b"; created = visitor_key_lifetime })
unfolding pass hold rotated overwrite rotate new_key is_expired
new_key_is_used = refl

Reach-AreSpaced_example : AreSpaced both_rotate.keys.visitor_key both_rotate.keys.overwritten
Reach-AreSpaced_example = Reach-AreSpaced first_key 0 both_rotate (omega arith) both_rotate-Reach

Reach-young_example : visitor_key_lifetime < visitor_key_lifetime + visitor_key_lifetime
Reach-young_example =
    Reach-young first_key 0 both_rotate 0 visitor_key_lifetime
      (record { key = codes "b"; created = visitor_key_lifetime }) (omega arith) both_rotate-Reach
      new_key_is_used
