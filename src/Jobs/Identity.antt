-- ===== src/Jobs/Identity.antt =====
-- No two rows have one identifier, and no two rows of a document have one idempotency key; writes
-- that keep these columns keep this.
use clerk_san.Prelude.{
  ==_iff, All, All-of-In, Bool-cases, In, [], arith, false, inl, inr, map, refl, subst, sym, ◌==◌,
  ◌∙◌, ◌∷◌, ◌≡◌, ◌≢◌,
}
use clerk_san.Jobs.Row.{Job}
use clerk_san.Jobs.Table.{Jobs, save}
use clerk_san.Jobs.Enqueue.{conflicts}

pub record SameWork (a b : Job) : Type 0 where
  pub id : a.id ≡ b.id
  pub document : a.document_id ≡ b.document_id
  pub key : a.idempotency_key ≡ b.idempotency_key

abbrev pub IsUnique : Jobs → Type 0
IsUnique [] = Unit
IsUnique (job ∷ jobs) = (conflicts job jobs ≡ false) × IsUnique jobs

-- A row that is written over a row of the same identifier is the same work.
abbrev pub Agrees : Job → Job → Type 0
Agrees new job = new.id ≡ job.id → SameWork new job

pub SameWork-refl : (a : Job) → SameWork a a
SameWork-refl a = record { id = refl; document = refl; key = refl }

pub SameWork-sym : {a b : Job} → SameWork a b → SameWork b a
SameWork-sym h = record { id = sym h.id; document = sym h.document; key = sym h.key }

pub SameWork-trans : {a b c : Job} → SameWork a b → SameWork b c → SameWork a c
SameWork-trans h k = record {
  id = h.id ∙ k.id;
  document = h.document ∙ k.document;
  key = h.key ∙ k.key;
}

conflicts-SameWork : {a b : Job} (jobs : Jobs) → SameWork a b → conflicts a jobs ≡ conflicts b jobs
unfolding conflicts
conflicts-SameWork [] h = refl
conflicts-SameWork (job ∷ jobs) h = rw (h.id, h.document, h.key, conflicts-SameWork jobs h) refl

conflicts-save :
    (a new : Job) (jobs : Jobs)
    → All (Agrees new) jobs
    → conflicts a (save new jobs) ≡ conflicts a jobs
unfolding conflicts save
conflicts-save a new [] h = refl
conflicts-save a new (job ∷ jobs) h = elim (Bool-cases (job.id == new.id)) [
  | inl e ↦
      let same = h.0 (sym ((==_iff job.id new.id).0 e)) in
      rw e (rw (same.id, same.document, same.key) refl)
  | inr e ↦ rw e (rw (conflicts-save a new jobs h.1) refl)
]

pub IsUnique-save :
    (new : Job) (jobs : Jobs) → All (Agrees new) jobs → IsUnique jobs → IsUnique (save new jobs)
unfolding save
IsUnique-save new [] h u = tt
IsUnique-save new (job ∷ jobs) h u = elim (Bool-cases (job.id == new.id)) [
  | inl e ↦
      let same = h.0 (sym ((==_iff job.id new.id).0 e)) in
      rw e (conflicts-SameWork jobs same ∙ u.0, u.1)
  | inr e ↦ rw e (conflicts-save job new jobs h.1 ∙ u.0, IsUnique-save new jobs h.1 u.1)
]

conflicts-map :
    (f : Job → Job) (a : Job) (jobs : Jobs)
    → ((job : Job) → SameWork (f job) job)
    → conflicts a (map f jobs) ≡ conflicts a jobs
unfolding conflicts
conflicts-map f a [] h = refl
conflicts-map f a (job ∷ jobs) h =
    rw ((h job).id, (h job).document, (h job).key, conflicts-map f a jobs h) refl

pub IsUnique-map :
    (f : Job → Job) (jobs : Jobs)
    → ((job : Job) → SameWork (f job) job)
    → IsUnique jobs
    → IsUnique (map f jobs)
IsUnique-map f [] h u = tt
IsUnique-map f (job ∷ jobs) h u = (
  conflicts-SameWork (map f jobs) (h job) ∙ conflicts-map f job jobs h ∙ u.0,
  IsUnique-map f jobs h u.1,
)

pub conflicts-In : (a b : Job) (jobs : Jobs) → conflicts a jobs ≡ false → In b jobs → a.id ≢ b.id
unfolding conflicts
conflicts-In a b [] h m = absurd m
conflicts-In a b (job ∷ jobs) h m = ground (arith, conflicts-In a b jobs)

-- Rows of one identifier are one row.
pub In-unique :
    (jobs : Jobs) (a b : Job) → IsUnique jobs → In a jobs → In b jobs → a.id ≡ b.id → a ≡ b
In-unique [] a b u m n e = absurd m
In-unique (job ∷ jobs) a b u (inl p) (inl q) e = p ∙ sym q
In-unique (job ∷ jobs) a b u (inl p) (inr n) e = absurd (conflicts-In job b jobs u.0 n (rw (← p) e))
In-unique (job ∷ jobs) a b u (inr m) (inl q) e =
    absurd (conflicts-In job a jobs u.0 m (rw (← q) (sym e)))
In-unique (job ∷ jobs) a b u (inr m) (inr n) e = In-unique jobs a b u.1 m n e

-- A stored row, or one of the same work, agrees with all rows of the table.
pub In-Agrees :
    (jobs : Jobs) (old new : Job)
    → IsUnique jobs
    → In old jobs
    → SameWork new old
    → All (Agrees new) jobs
In-Agrees jobs old new u m same = All-of-In (Agrees new) jobs λ job n e.
    let one = In-unique jobs old job u m n (sym same.id ∙ e) in
    SameWork-trans same (subst (SameWork old) one (SameWork-refl old))

-- A write that agrees with the table keeps what else agrees with it.
pub Agrees-save :
    (row new : Job) (jobs : Jobs)
    → All (Agrees row) jobs
    → All (Agrees new) jobs
    → All (Agrees row) (save new jobs)
unfolding save
Agrees-save row new [] h k = tt
Agrees-save row new (job ∷ jobs) h k = elim (Bool-cases (job.id == new.id)) [
  | inl e ↦
      let same = k.0 (sym ((==_iff job.id new.id).0 e)) in
      rw e ((λ p. SameWork-trans (h.0 (p ∙ same.id)) (SameWork-sym same)), h.1)
  | inr e ↦ rw e (h.0, Agrees-save row new jobs h.1 k.1)
]
