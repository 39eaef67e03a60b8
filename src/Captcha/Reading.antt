-- ===== src/Captcha/Reading.antt =====
-- `read_bounded` (libs/recaptcha.rs) reads a whole body or nothing.
use crackstation_rust.Base.{
  ℕ, ◌+◌, ◌≤◌, false, none, some, List, [], ◌∷◌, ◌++◌, append_assoc, append-nil, length,
  length-append, ltb, Bool-cases, ◌≡◌, ◌↔◌, inl, inr, refl, sym, ap, ◌∙◌, subst, arith,
}
use crackstation_rust.Captcha.{Chunks, max_response_bytes, read_from, read_bounded}

-- All the chunks arrive, and these are their bytes.
abbrev pub Arrives : Chunks → List ℕ → Type 0
Arrives [] bytes = bytes ≡ []
Arrives (none ∷ chunks) bytes = ⊥
Arrives (some chunk ∷ chunks) bytes =
    (rest : List ℕ) × (bytes ≡ chunk ++ rest) × Arrives chunks rest

read_from_sound :
    (body : List ℕ) (chunks : Chunks) (out : List ℕ)
    → length body ≤ max_response_bytes
    → read_from body chunks ≡ some out
    → (rest : List ℕ) × (out ≡ body ++ rest)
      × Arrives chunks rest
      × (length out ≤ max_response_bytes)
unfolding read_from
read_from_sound body [] out small e = ([], ground (arith, append-nil body), refl, ground arith)
read_from_sound body (none ∷ chunks) out small e = cc
read_from_sound body (some chunk ∷ chunks) out small e =
    elim (Bool-cases (ltb max_response_bytes (length body + length chunk))) [
      | inl over ↦ cc (rw over at e)
      | inr within ↦
          let fits : length (body ++ chunk) ≤ max_response_bytes =
            ground (arith, length-append body chunk) in
          let (rest, same, arrived, bound) =
            read_from_sound (body ++ chunk) chunks out fits (rw within at e) in
          (chunk ++ rest, same ∙ append_assoc body chunk rest, (rest, refl, arrived), bound)
    ]

read_from_complete :
    (body : List ℕ) (chunks : Chunks) (rest : List ℕ)
    → Arrives chunks rest
    → length (body ++ rest) ≤ max_response_bytes
    → read_from body chunks ≡ some (body ++ rest)
unfolding read_from
read_from_complete body [] rest e small = rw e (rw (append-nil body) refl)
read_from_complete body (none ∷ chunks) rest e small = absurd e
read_from_complete body (some chunk ∷ chunks) rest (tail, e, arrived) small =
    let same : (body ++ chunk) ++ tail ≡ body ++ rest = rw e (append_assoc body chunk tail) in
    let done = read_from_complete (body ++ chunk) chunks tail arrived (rw same small) in
    let within : ltb max_response_bytes (length body + length chunk) ≡ false =
      ground
        (arith, length-append body chunk, length-append (body ++ chunk) tail, ap length same) in
    rw within (done ∙ ap some same)

-- The body of a response is read exactly if all its chunks arrive and they are at most 64 KiB: it
-- is then the whole body, never a part of it.
pub read_bounded_iff :
    (chunks : Chunks) (body : List ℕ)
    → (read_bounded chunks ≡ some body) ↔ (Arrives chunks body × (length body ≤ max_response_bytes))
unfolding read_bounded
read_bounded_iff chunks body = (
  λ e.
      let (rest, same, arrived, bound) = read_from_sound [] chunks body (omega arith) e in
      (subst (Arrives chunks) (sym same) arrived, bound),
  λ h. read_from_complete [] chunks body (h.0) (h.1),
)
