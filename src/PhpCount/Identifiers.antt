-- ===== src/PhpCount/Identifiers.antt =====
-- The message under an identifier of phpcount.rs names one page and one address.
use crackstation_rust.Base.{ℕ, [], ◌∷◌, Text, Lacks, ◌≡◌, refl, sym}
use crackstation_rust.PhpCount.{id_message}

tail_eq : {c d : ℕ} {s t : Text} → c ∷ s ≡ d ∷ t → s ≡ t
tail_eq e = cc

head_eq : {c d : ℕ} {s t : Text} → c ∷ s ≡ d ∷ t → c ≡ d
head_eq e = cc

-- Two pages, neither with a NUL, and two addresses: the same message is of the same page and the
-- same address, so that no part of one can be taken for a part of the other.
pub id_message_unique :
    (p q a b : Text) → Lacks 0 p → Lacks 0 q → id_message p a ≡ id_message q b → (p ≡ q) × (a ≡ b)
unfolding id_message
id_message_unique [] [] a b h k e = (refl, tail_eq e)
id_message_unique [] (d ∷ q) a b h k e = absurd (k.0 (sym (head_eq e)))
id_message_unique (c ∷ p) [] a b h k e = absurd (h.0 (head_eq e))
id_message_unique (c ∷ p) (d ∷ q) a b h k e =
    let (same, rest) = id_message_unique p q a b (h.1) (k.1) (tail_eq e) in (cc (e, same), rest)
