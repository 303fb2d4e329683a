-- ===== src/Projects/Transactions/Steps.antt =====
-- The worlds between the writes of a prepared operation, and the world after all of them.
use uv_studio.Base.{
  ℕ, zero, suc, ◌≡◌, refl, sym, ap, ◌∙◌, ◌⊎◌, inl, inr, true, false, List, [], ◌∷◌, ◌++◌, map,
  Option, some, Text, All, All-map, In-All, In,
}
use mathlib.Core.List.{reverse}
use mathlib.Core.Path.{subst}
use uv_studio.Projects.Transactions.Model.{
  Bytes, Documents, History, Change, Phase, Record, Folder, World, load_history,
}
use uv_studio.Projects.Transactions.Journal.{
  Write, apply_write, apply_writes, run_writes, write_before, write_after, with_phase,
  forward_writes, rollback_writes,
}
use uv_studio.Projects.Transactions.Restore.{
  Agree, Recorded, All-reverse, reverse-All, put-Agree, restored, apply_writes-write_before,
  restored-Agree, replaced, apply_writes-write_after, Distinct, replaced-Agree, replaced-after,
}
use uv_studio.Projects.Transactions.Recovery.{
  IsSettled, Settled, PendingIn, insert-Pending, insert-AllSettled,
}

-- The writes keep `P`, but for the last one.
pub data Keeps (P : World → Type 0) : List Write → Type 0 where
  last : (x : Write) → Keeps P (x ∷ [])
  more :
      {x : Write} {xs : List Write}
      → ((w : World) → P w → P (apply_write x w))
      → Keeps P xs
      → Keeps P (x ∷ xs)

-- A run of such writes is complete, or it stops in a world with `P`.
pub run_writes-Keeps :
    {P : World → Type 0} (n : ℕ) (xs : List Write) (w : World)
    → Keeps P xs
    → P w
    → (run_writes n xs w ≡ (apply_writes xs w, true))
      ⊎ ((u : World) × (run_writes n xs w ≡ (u, false)) × P u)
unfolding run_writes apply_writes
run_writes-Keeps zero _ w (Keeps.last x) p = inr (w, refl, p)
run_writes-Keeps zero _ w (Keeps.more f k) p = inr (w, refl, p)
run_writes-Keeps (suc n) _ w (Keeps.last x) p = inl (one n)
  where
    one : (n : ℕ) → run_writes n [] (apply_write x w) ≡ (apply_write x w, true)
    one zero = refl
    one (suc n) = refl
run_writes-Keeps (suc n) _ w (Keeps.more {x} {xs} f k) p =
    run_writes-Keeps n xs (apply_write x w) k (f w p)

Keeps-append :
    {P : World → Type 0} {A : Type 0} (write : A → Write) (cs : List A) (rest : List Write)
    → All (λ c. (w : World) → P w → P (apply_write (write c) w)) cs
    → Keeps P rest
    → Keeps P (map write cs ++ rest)
Keeps-append write [] rest h k = k
Keeps-append write (c ∷ cs) rest h k = Keeps.more h.0 (Keeps-append write cs rest h.1 k)

-- The documents differ from `g` at most where the record says, and it is the one to recover.
abbrev pub Interrupted : Documents → Folder → Text → Record → World → Type 0
Interrupted g folder id r w = Agree g r.changes w.documents × PendingIn folder id r w

document-Interrupted :
    (g : Documents) (folder : Folder) (id : Text) (r : Record) (c : Change) (v : Option Bytes)
    (w : World)
    → In c r.changes
    → Interrupted g folder id r w
    → Interrupted g folder id r (apply_write (Write.document c.path v) w)
unfolding apply_write
document-Interrupted g Folder.transactions id r c v w m h =
    (put-Agree g w.documents r.changes c v m h.0, h.1)
document-Interrupted g Folder.operations id r c v w m h =
    (put-Agree g w.documents r.changes c v m h.0, h.1)

history-Interrupted :
    (g : Documents) (folder : Folder) (id : Text) (r : Record) (h : History) (w : World)
    → Interrupted g folder id r w
    → Interrupted g folder id r (apply_write (Write.history_index h) w)
unfolding apply_write
history-Interrupted g Folder.transactions id r h w i = i
history-Interrupted g Folder.operations id r h w i = i

pub start-Interrupted :
    (folder : Folder) (id : Text) (r : Record) (w : World)
    → Settled w
    → Interrupted w.documents folder id r (apply_write (Write.journal folder id r) w)
unfolding apply_write
start-Interrupted Folder.transactions id r w h =
    ((λ q off. refl), (insert-Pending id r w.transactions h.0, h.1))
start-Interrupted Folder.operations id r w h =
    ((λ q off. refl), (h.0, insert-Pending id r w.operations h.1))

finish-Settled :
    (folder : Folder) (id : Text) (r r' : Record) (w : World)
    → PendingIn folder id r w
    → IsSettled r'.phase
    → Settled (apply_write (Write.journal folder id r') w)
unfolding apply_write
finish-Settled Folder.transactions id r r' w h s =
    (insert-AllSettled id r r' w.transactions h.0 s, h.1)
finish-Settled Folder.operations id r r' w h s = (h.0, insert-AllSettled id r r' w.operations h.1 s)

pub forward-Keeps :
    (g : Documents) (folder : Folder) (id : Text) (r : Record)
    → Keeps (Interrupted g folder id r) (forward_writes folder id r)
unfolding forward_writes
forward-Keeps g folder id r =
    Keeps-append write_after r.changes _
      (In-All _ r.changes (λ c m w h. document-Interrupted g folder id r c c.after w m h))
      (Keeps.more (λ w h. history-Interrupted g folder id r r.history_after w h) (Keeps.last _))

pub rollback-Keeps :
    (g : Documents) (folder : Folder) (id : Text) (r : Record)
    → Keeps (Interrupted g folder id r) (rollback_writes folder id r)
unfolding rollback_writes
rollback-Keeps g folder id r =
    Keeps-append write_before (reverse r.changes) _
      (All-reverse _ r.changes
        (In-All _ r.changes (λ c m w h. document-Interrupted g folder id r c c.before w m h)))
      (Keeps.more (λ w h. history-Interrupted g folder id r r.history_before w h) (Keeps.last _))

-- As before the operation, whatever it had written
abbrev pub RolledBack : World → Record → World → Type 0
RolledBack w r u =
    ((q : Text) → u.documents q ≡ w.documents q) × (load_history u ≡ r.history_before) × Settled u

-- Every change is made, and nothing else is.
abbrev pub Committed : World → Record → World → Type 0
Committed w r u =
    All (λ c. u.documents c.path ≡ c.after) r.changes
    × Agree w.documents r.changes u.documents
    × (load_history u ≡ r.history_after)
    × Settled u

pending-documents :
    (folder : Folder) (id : Text) (r : Record) (f : Documents) (h : Option History) (w : World)
    → PendingIn folder id r w
    → PendingIn folder id r (record w { documents = f; history = h })
pending-documents Folder.transactions id r f h w p = p
pending-documents Folder.operations id r f h w p = p

-- The last two writes: the history index and the journal
abbrev closed : Folder → Text → Record → History → Documents → World → World
closed folder id r h f u =
    apply_writes (Write.history_index h ∷ Write.journal folder id r ∷ [])
      (record u { documents = f })

closed-contents :
    (folder : Folder) (id : Text) (r : Record) (h : History) (f : Documents) (u : World)
    → ((closed folder id r h f u).documents ≡ f) × (load_history (closed folder id r h f u) ≡ h)
unfolding load_history apply_writes apply_write
closed-contents Folder.transactions id r h f u = (refl, refl)
closed-contents Folder.operations id r h f u = (refl, refl)

closed-Settled :
    (folder : Folder) (id : Text) (r r' : Record) (h : History) (f : Documents) (u : World)
    → PendingIn folder id r u
    → IsSettled r'.phase
    → Settled (closed folder id r' h f u)
unfolding apply_writes apply_write
closed-Settled Folder.transactions id r r' h f u p s =
    finish-Settled Folder.transactions id r r' (record u { documents = f; history = some h }) p s
closed-Settled Folder.operations id r r' h f u p s =
    finish-Settled Folder.operations id r r' (record u { documents = f; history = some h }) p s

pub rollback-RolledBack :
    (w : World) (folder : Folder) (id : Text) (r : Record) (u : World)
    → Recorded w.documents r.changes
    → Interrupted w.documents folder id r u
    → RolledBack w r (apply_writes (rollback_writes folder id r) u)
unfolding rollback_writes
rollback-RolledBack w folder id r u recorded i =
    let back = reverse r.changes in
    let f = restored back u.documents in
    let r' = with_phase Phase.rolled_back r in
    let same : (q : Text) → f q ≡ w.documents q =
      restored-Agree w.documents u.documents back (All-reverse _ r.changes recorded)
        (λ q off. i.0 q (reverse-All _ r.changes off)) in
    let (documents, history) = closed-contents folder id r' r.history_before f u in
    subst (RolledBack w r) (sym (apply_writes-write_before back _ u)) (
      λ q. ap (λ (g : Documents). g q) documents ∙ same q,
      history,
      closed-Settled folder id r r' r.history_before f u i.1 IsSettled.rolled_back,
    )

pub forward-Committed :
    (w : World) (folder : Folder) (id : Text) (r : Record) (u : World)
    → Distinct r.changes
    → u.documents ≡ w.documents
    → PendingIn folder id r u
    → Committed w r (apply_writes (forward_writes folder id r) u)
unfolding forward_writes
forward-Committed w folder id r u distinct same p =
    let f = replaced r.changes u.documents in
    let r' = with_phase Phase.committed r in
    let (documents, history) = closed-contents folder id r' r.history_after f u in
    subst (Committed w r) (sym (apply_writes-write_after r.changes _ u)) (
      All-map (λ c e. ap (λ (g : Documents). g c.path) documents ∙ e) r.changes
          (replaced-after u.documents r.changes distinct),
      λ q off.
          ap (λ (g : Documents). g q) documents
          ∙ replaced-Agree u.documents r.changes q off
          ∙ ap (λ (g : Documents). g q) same,
      history,
      closed-Settled folder id r r' r.history_after f u p IsSettled.committed,
    )
