-- ===== src/Projects/Transactions/Restore.antt =====
-- The documents after the writes of a rollback.
use uv_studio.Base.{
  ◌≡◌, refl, sym, ap, ◌∙◌, true, false, List, [], ◌∷◌, ◌++◌, map, Option, Text, ◌==◌, text_eq_iff,
  All, AllPairs, In, All-In, text_eq_refl, Bool-cases, inl, inr,
}
use mathlib.Core.List.{reverse, reverse_aux}
use uv_studio.Projects.Transactions.Model.{Bytes, Documents, Change, World}
use uv_studio.Projects.Transactions.Journal.{
  Write, put, apply_write, apply_writes, write_before, write_after,
}

-- A path that no change names
abbrev pub IsOff : List Change → Text → Type 0
IsOff cs q = All (λ c. (q == c.path) ≡ false) cs

-- Two document tables that differ at most where a change names the path
abbrev pub Agree : Documents → List Change → Documents → Type 0
Agree g cs f = (q : Text) → IsOff cs q → f q ≡ g q

-- The changes recorded the content that the documents have.
abbrev pub Recorded : Documents → List Change → Type 0
Recorded g cs = All (λ c. g c.path ≡ c.before) cs

put-other : (p q : Text) (v : Option Bytes) (f : Documents) → (q == p) ≡ false → put p v f q ≡ f q
unfolding put
put-other p q v f h = rw h refl

put-same : (p q : Text) (v : Option Bytes) (f : Documents) → (q == p) ≡ true → put p v f q ≡ v
unfolding put
put-same p q v f h = rw h refl

All-reverse_aux {ℓ κ} :
    {A : Type ℓ} (P : A → Type κ) (xs ys : List A) → All P xs → All P ys → All P (reverse_aux xs ys)
All-reverse_aux P [] ys h k = k
All-reverse_aux P (x ∷ xs) ys h k = All-reverse_aux P xs (x ∷ ys) h.1 (h.0, k)

pub All-reverse {ℓ κ} : {A : Type ℓ} (P : A → Type κ) (xs : List A) → All P xs → All P (reverse xs)
All-reverse P xs h = All-reverse_aux P xs [] h tt

reverse_aux-All {ℓ κ} :
    {A : Type ℓ} (P : A → Type κ) (xs ys : List A) → All P (reverse_aux xs ys) → All P xs × All P ys
reverse_aux-All P [] ys h = (tt, h)
reverse_aux-All P (x ∷ xs) ys h = let r = reverse_aux-All P xs (x ∷ ys) h in ((r.1.0, r.0), r.1.1)

pub reverse-All {ℓ κ} : {A : Type ℓ} (P : A → Type κ) (xs : List A) → All P (reverse xs) → All P xs
reverse-All P xs h = (reverse_aux-All P xs [] h).0

-- Writing a change's document keeps the agreement with other tables off the changes.
pub put-Agree :
    (g f : Documents) (cs : List Change) (c : Change) (v : Option Bytes)
    → In c cs
    → Agree g cs f
    → Agree g cs (put c.path v f)
put-Agree g f cs c v m h q off = put-other c.path q v f (All-In _ off m) ∙ h q off

-- The documents alone change.
pub restored : List Change → Documents → Documents
restored [] f = f
restored (c ∷ cs) f = restored cs (put c.path c.before f)

pub apply_writes-write_before :
    (cs : List Change) (rest : List Write) (w : World)
    → apply_writes (map write_before cs ++ rest) w
      ≡ apply_writes rest (record w { documents = restored cs w.documents })
unfolding apply_writes apply_write restored
apply_writes-write_before [] rest w = refl
apply_writes-write_before (c ∷ cs) rest w =
    apply_writes-write_before cs rest (record w { documents = put c.path c.before w.documents })

-- Where the changes recorded the content of `g`, restoring them gives `g` back, at every path.
pub restored-Agree :
    (g f : Documents) (cs : List Change)
    → Recorded g cs
    → Agree g cs f
    → (q : Text) → restored cs f q ≡ g q
unfolding restored
restored-Agree g f [] h agree q = agree q tt
restored-Agree g f (c ∷ cs) h agree q =
    let step : Agree g cs (put c.path c.before f) = λ p off. elim (Bool-cases (p == c.path)) [
      | inl e ↦ put-same c.path p c.before f e ∙ sym h.0 ∙ ap g (sym ((text_eq_iff p c.path).0 e))
      | inr e ↦ put-other c.path p c.before f e ∙ agree p (e, off)
    ] in
    restored-Agree g (put c.path c.before f) cs h.1 step q

-- The documents after the forward writes
pub replaced : List Change → Documents → Documents
replaced [] f = f
replaced (c ∷ cs) f = replaced cs (put c.path c.after f)

pub apply_writes-write_after :
    (cs : List Change) (rest : List Write) (w : World)
    → apply_writes (map write_after cs ++ rest) w
      ≡ apply_writes rest (record w { documents = replaced cs w.documents })
unfolding apply_writes apply_write replaced
apply_writes-write_after [] rest w = refl
apply_writes-write_after (c ∷ cs) rest w =
    apply_writes-write_after cs rest (record w { documents = put c.path c.after w.documents })

-- The changes name different documents.
abbrev pub Distinct : List Change → Type 0
Distinct cs = AllPairs (λ c d. (c.path == d.path) ≡ false) cs

pub replaced-Agree : (f : Documents) (cs : List Change) → Agree f cs (replaced cs f)
unfolding replaced
replaced-Agree f [] q off = refl
replaced-Agree f (c ∷ cs) q off =
    replaced-Agree (put c.path c.after f) cs q off.1 ∙ put-other c.path q c.after f off.0

pub replaced-after :
    (f : Documents) (cs : List Change) → Distinct cs → All (λ c. replaced cs f c.path ≡ c.after) cs
unfolding replaced
replaced-after f [] d = tt
replaced-after f (c ∷ cs) d = (
  replaced-Agree (put c.path c.after f) cs c.path d.0
      ∙ put-same c.path c.path c.after f (text_eq_refl c.path),
  replaced-after (put c.path c.after f) cs d.1,
)
