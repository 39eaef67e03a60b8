-- ===== src/PhpCount/Rotation/Ages.antt =====
-- The ages of the visitor keys of libs/phpcount.rs, whatever the threads do.
use crackstation_rust.Base.{
  ℕ, ◌+◌, ◌≤◌, ◌<◌, Option, none, some, Option-cases, Bool, if◌then◌else◌, true, false, List, [],
  ◌∷◌, Text, ◌==◌, Bool-cases, inl, inr, ◌≡◌, subst, arith,
}
use crackstation_rust.PhpCount.Threads.{update}
use crackstation_rust.PhpCount.{VisitorKey, new_key, rotate, is_expired, visitor_key_lifetime}
use crackstation_rust.PhpCount.Rotation.{
  Call, called, expired, checked, keyed, panicked, Keys, overwrite, rotated, struck, hold, pass,
  System, Step, ticked, passed, Reach, here, later, fresh,
}

expired→le :
    (instant : ℕ) (k : VisitorKey)
    → is_expired instant k ≡ true
    → k.created + visitor_key_lifetime ≤ instant
unfolding is_expired
expired→le instant k h = ground arith

not_expired→lt :
    (instant : ℕ) (k : VisitorKey)
    → is_expired instant k ≡ false
    → instant < k.created + visitor_key_lifetime
unfolding is_expired
not_expired→lt instant k h = ground arith

created-rotate :
    (entropy : Option Text) (instant : ℕ) (k : VisitorKey) {fresh : VisitorKey}
    → rotate entropy instant k ≡ some fresh
    → fresh.created ≡ instant
unfolding rotate new_key
created-rotate none instant k e = cc
created-rotate (some bytes) instant k e = cc

-- Each key was made 60 days or more behind the one before it.
abbrev pub AreSpaced : VisitorKey → List VisitorKey → Type 0
AreSpaced key [] = Unit
AreSpaced key (old ∷ older) =
    (old.created + visitor_key_lifetime ≤ key.created) × AreSpaced old older

-- What holds of a call while the shared key was made at `created`.
abbrev IsTimely : ℕ → ℕ → Call → Type 0
IsTimely instant created called = Unit
IsTimely instant created (expired began) = began ≤ instant
IsTimely instant created (checked began) =
    (began ≤ instant) × (began < created + visitor_key_lifetime)
IsTimely instant created (keyed began key) = began < key.created + visitor_key_lifetime
IsTimely instant created panicked = Unit

IsTimely-mono :
    {instant later created newer : ℕ} (c : Call)
    → instant ≤ later
    → created ≤ newer
    → IsTimely instant created c
    → IsTimely later newer c
IsTimely-mono called h k t = t
IsTimely-mono (expired began) h k t = omega arith
IsTimely-mono (checked began) h k t = omega arith
IsTimely-mono (keyed began key) h k t = t
IsTimely-mono panicked h k t = t

-- The shared key is of the past, and behind those that it overwrote.
record IsAged (instant : ℕ) (keys : Keys) : Type 0 where
  past : keys.visitor_key.created ≤ instant
  spaced : AreSpaced keys.visitor_key keys.overwritten

-- What one holding of the lock does: the keys keep their distances, none is made earlier than the
-- one before it, and the call is timely.
abbrev Keeps : ℕ → Keys → Call × Keys → Type 0
Keeps instant keys (call, after) =
    IsAged instant after
    × (keys.visitor_key.created ≤ after.visitor_key.created)
    × IsTimely instant after.visitor_key.created call

hold-Keeps :
    (entropy : Option Text) (instant : ℕ) (call : Call) (keys : Keys)
    → IsAged instant keys
    → IsTimely instant keys.visitor_key.created call
    → Keeps instant keys (hold entropy instant call keys)
unfolding hold rotated overwrite
hold-Keeps entropy instant called keys a t =
    elim (Bool-cases (is_expired instant keys.visitor_key)) [
      | inl old ↦ rw old (a, omega arith, omega arith)
      | inr young ↦ rw young (a, omega arith, (omega arith, not_expired→lt instant _ young))
    ]
hold-Keeps entropy instant (expired began) keys a t =
    elim (Bool-cases (is_expired instant keys.visitor_key)) [
      | inl old ↦ elim (Option-cases (rotate entropy instant keys.visitor_key)) [
        | inl dry ↦ rw (old, dry) (record { past = a.past; spaced = a.spaced }, omega arith, tt)
        | inr (fresh, drawn) ↦
            let far = expired→le instant keys.visitor_key old in
            let new = created-rotate entropy instant keys.visitor_key drawn in
            rw (old, drawn)
              (
                record { past = omega (arith, new); spaced = (omega (arith, far, new), a.spaced) },
                omega (arith, far, new),
                (t, omega (arith, t, new)),
              )
      ]
      | inr young ↦
          rw young
            (a, omega arith, (t, omega (arith, not_expired→lt instant keys.visitor_key young)))
    ]
hold-Keeps entropy instant (checked began) keys a t = (a, omega arith, t.1)
hold-Keeps entropy instant (keyed began key) keys a t = (a, omega arith, t)
hold-Keeps entropy instant panicked keys a t = (a, omega arith, t)

struck-IsTimely :
    (instant created : ℕ) (call : Call)
    → IsTimely instant created call
    → IsTimely instant created (struck call)
unfolding struck
struck-IsTimely instant created called t = tt
struck-IsTimely instant created (expired began) t = tt
struck-IsTimely instant created (checked began) t = tt
struck-IsTimely instant created (keyed began key) t = t
struck-IsTimely instant created panicked t = tt

Keeps-if :
    (poisoned : Bool) (entropy : Option Text) (instant : ℕ) (call : Call) (keys : Keys)
    → IsAged instant keys
    → IsTimely instant keys.visitor_key.created call
    → Keeps instant keys (if poisoned then (struck call, keys) else hold entropy instant call keys)
Keeps-if true entropy instant call keys a t = (a, omega arith, struck-IsTimely instant _ call t)
Keeps-if false entropy instant call keys a t = hold-Keeps entropy instant call keys a t

pass-Keeps :
    (entropy : Option Text) (instant : ℕ) (call : Call) (keys : Keys)
    → IsAged instant keys
    → IsTimely instant keys.visitor_key.created call
    → Keeps instant keys (pass entropy instant call keys)
unfolding pass
pass-Keeps entropy instant call keys a t = Keeps-if keys.poisoned entropy instant call keys a t

record IsTimed (s : System) : Type 0 where
  aged : IsAged s.instant s.keys
  timely : (i : ℕ) → IsTimely s.instant s.keys.visitor_key.created (s.calls i)

update-IsTimely :
    (instant created : ℕ) (calls : ℕ → Call) (i : ℕ) (c : Call)
    → IsTimely instant created c
    → ((j : ℕ) → IsTimely instant created (calls j))
    → (j : ℕ) → IsTimely instant created (update calls i c j)
update-IsTimely instant created calls i c h k j = elim (Bool-cases (i == j)) [
  | inl e ↦ rw e h
  | inr e ↦ rw e (k j)
]

Step-IsTimed : {s t : System} → Step s t → IsTimed s → IsTimed t
Step-IsTimed {s} (ticked seconds) h = record {
  aged = record { past = omega (arith, h.aged.past); spaced = h.aged.spaced };
  timely = λ i. IsTimely-mono (s.calls i) (omega arith) (omega arith) (h.timely i);
}
Step-IsTimed {s} (passed i entropy) h =
    let (aged, newer, timely) =
      pass-Keeps entropy s.instant (s.calls i) s.keys h.aged (h.timely i) in
    record {
      aged = aged;
      timely =
          update-IsTimely s.instant _ s.calls i _ timely
            (λ j. IsTimely-mono (s.calls j) (omega arith) newer (h.timely j));
    }

Reach-IsTimed : {s t : System} → IsTimed s → Reach s t → IsTimed t
Reach-IsTimed h here = h
Reach-IsTimed h (later r step) = Step-IsTimed step (Reach-IsTimed h r)

fresh-IsTimed :
    (key : VisitorKey) (instant : ℕ) → key.created ≤ instant → IsTimed (fresh key instant)
fresh-IsTimed key instant h = record { aged = record { past = h; spaced = tt }; timely = λ i. tt }

-- However many threads compute identifiers at the same time, and however they pass the lock of the
-- key, or panic while they hold it: each key that the process makes is 60 days or more younger than the one that it overwrites.
-- Threads that find the same key expired at the same time rotate it once.
pub Reach-AreSpaced :
    (key : VisitorKey) (instant : ℕ) (s : System)
    → key.created ≤ instant
    → Reach (fresh key instant) s
    → AreSpaced s.keys.visitor_key s.keys.overwritten
Reach-AreSpaced key instant s h r = (Reach-IsTimed (fresh-IsTimed key instant h) r).aged.spaced

-- However the threads pass the lock, and however long one of them waits: no identifier is computed
-- with a key that was expired when the call for the identifier began.
pub Reach-young :
    (key : VisitorKey) (instant : ℕ) (s : System) (i began : ℕ) (used : VisitorKey)
    → key.created ≤ instant
    → Reach (fresh key instant) s
    → s.calls i ≡ keyed began used
    → began < used.created + visitor_key_lifetime
Reach-young key instant s i began used h r e =
    subst (IsTimely s.instant s.keys.visitor_key.created) e
      ((Reach-IsTimed (fresh-IsTimed key instant h) r).timely i)
