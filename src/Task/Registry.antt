-- ===== src/Task/Registry.antt =====
-- The numbers of tasks: what `registerTask` adds is what `getTask` finds.
use fidinventor.Base.{
  zero, suc, ◌≡◌, refl, ap, sym, ◌∙◌, Bool, true, false, List, [], ◌∷◌, ◌++◌, All, All-append, ℤ,
  pos, negsuc, ◌+ℤ◌, ltb_ℤ, eq_ℤ, arith, if◌then◌else◌, inl, inr, Bool-cases,
}
use fidinventor.Base.Text.{Bytes}
use fidinventor.Task.Types.{TaskType, Task, empty_task, new_task}
use fidinventor.Task.Schedule.{Registry, get_seq, register_task, find_task, get_task}

ltb_ℤ-next : (a : ℤ) → ltb_ℤ a (a +ℤ pos 1) ≡ true
ltb_ℤ-next (pos n) = ground arith
ltb_ℤ-next (negsuc zero) = refl
ltb_ℤ-next (negsuc (suc n)) = ground arith

ltb_ℤ-ne : (a b : ℤ) → ltb_ℤ a b ≡ true → eq_ℤ b a ≡ false
ltb_ℤ-ne a b h = ground arith

ltb_ℤ-step : (a b : ℤ) → ltb_ℤ a b ≡ true → ltb_ℤ a (b +ℤ pos 1) ≡ true
ltb_ℤ-step a (pos n) h = ground arith
ltb_ℤ-step a (negsuc zero) h = ground arith
ltb_ℤ-step a (negsuc (suc n)) h = ground arith

eq_ℤ-refl : (a : ℤ) → eq_ℤ a a ≡ true
eq_ℤ-refl a = ground arith

-- Every number in the list was given out by the counter.
abbrev pub IsNumbered : Registry → Type 0
IsNumbered r = All (λ t. ltb_ℤ t.sequence r.sequence ≡ true) r.tasks

-- No task of a list has a number.
abbrev pub IsUnused : ℤ → List Task → Type 0
IsUnused seq ts = All (λ t. eq_ℤ seq t.sequence ≡ false) ts

-- The task that a registration makes.
abbrev pub registered : ℤ → TaskType → Bytes → ℤ → Task
registered storage type command seq = record (new_task storage type command) { sequence = seq }

-- The last task of a list, where there is one.
unfoldable pub last_or : Task → List Task → Task
last_or task [] = task
last_or task (t ∷ ts) = last_or t ts

numbered-next :
    (seq : ℤ) (ts : List Task)
    → All (λ t. ltb_ℤ t.sequence seq ≡ true) ts
    → All (λ t. ltb_ℤ t.sequence (seq +ℤ pos 1) ≡ true) ts
numbered-next seq [] h = h
numbered-next seq (t ∷ ts) (ht, hts) = (ltb_ℤ-step t.sequence seq ht, numbered-next seq ts hts)

numbered-IsUnused :
    (seq : ℤ) (ts : List Task) → All (λ t. ltb_ℤ t.sequence seq ≡ true) ts → IsUnused seq ts
numbered-IsUnused seq [] h = h
numbered-IsUnused seq (t ∷ ts) (ht, hts) =
    (ltb_ℤ-ne t.sequence seq ht, numbered-IsUnused seq ts hts)

find_task-unused :
    (seq : ℤ) (task : Task) (ts : List Task)
    → IsUnused seq ts
    → find_task seq task ts ≡ last_or task ts
unfolding find_task last_or
find_task-unused seq task [] h = refl
find_task-unused seq task (t ∷ ts) (ht, hts) =
    ap (λ b. if b then t else find_task seq t ts) ht ∙ find_task-unused seq t ts hts

find_task-new :
    (seq : ℤ) (task new : Task) (ts : List Task)
    → eq_ℤ seq new.sequence ≡ true
    → IsUnused seq ts
    → find_task seq task (ts ++ new ∷ []) ≡ new
unfolding find_task
find_task-new seq task new [] e h = ap (λ b. if b then new else new) e
find_task-new seq task new (t ∷ ts) e (ht, hts) =
    ap (λ b. if b then t else find_task seq t (ts ++ new ∷ [])) ht
    ∙ find_task-new seq t new ts e hts

-- Whether a task of a list has a number.
unfoldable pub has_number : ℤ → List Task → Bool
has_number seq [] = false
has_number seq (t ∷ ts) = let rest = has_number seq ts in if eq_ℤ seq t.sequence then true else rest

-- A number that a task had already finds the same task.
find_task-other :
    (seq : ℤ) (task new : Task) (ts : List Task)
    → has_number seq ts ≡ true
    → find_task seq task (ts ++ new ∷ []) ≡ find_task seq task ts
unfolding find_task has_number
find_task-other seq task new [] h = absurd (cc)
find_task-other seq task new (t ∷ ts) h = elim (Bool-cases (eq_ℤ seq t.sequence)) [
  | inl e ↦
      ap (λ b. if b then t else find_task seq t (ts ++ new ∷ [])) e
      ∙ sym (ap (λ b. if b then t else find_task seq t ts) e)
  | inr e ↦
      ap (λ b. if b then t else find_task seq t (ts ++ new ∷ [])) e
      ∙ find_task-other seq t new ts (sym (ap (λ b. if b then true else has_number seq ts) e) ∙ h)
      ∙ sym (ap (λ b. if b then t else find_task seq t ts) e)
]

-- The one task of a list is found under every number.
pub get_task-one : (storage seq : ℤ) (t : Task) → get_task storage seq (t ∷ []) ≡ t
unfolding get_task find_task
get_task-one storage seq t = by_test (eq_ℤ seq t.sequence)
  where
    by_test : (b : Bool) → (if b then t else t) ≡ t
    by_test true = refl
    by_test false = refl

-- Registering a task keeps the numbers of a list below the counter, gives out the number of the
-- counter, and the task is found under it as it was made.
pub register_task-get_task :
    (storage other : ℤ) (type : TaskType) (command : Bytes) (r : Registry)
    → IsNumbered r
    → IsNumbered (register_task storage type command r).1
      × ((register_task storage type command r).0 ≡ r.sequence)
      × (get_task other r.sequence (register_task storage type command r).1.tasks
          ≡ registered storage type command r.sequence)
unfolding register_task get_seq get_task
register_task-get_task storage other type command r h = (
  All-append (λ t. ltb_ℤ t.sequence (r.sequence +ℤ pos 1) ≡ true) r.tasks
      (registered storage type command r.sequence ∷ []) (numbered-next r.sequence r.tasks h)
      (ltb_ℤ-next r.sequence, tt),
  refl,
  find_task-new r.sequence (empty_task other) (registered storage type command r.sequence) r.tasks
      (eq_ℤ-refl r.sequence) (numbered-IsUnused r.sequence r.tasks h),
)

-- Registering a task does not change what is found under a number that a task of the list has.
pub register_task-keeps :
    (storage other : ℤ) (type : TaskType) (command : Bytes) (r : Registry) (seq : ℤ)
    → has_number seq r.tasks ≡ true
    → get_task other seq (register_task storage type command r).1.tasks ≡ get_task other seq r.tasks
unfolding register_task get_seq get_task
register_task-keeps storage other type command r seq h =
    find_task-other seq (empty_task other) (registered storage type command r.sequence) r.tasks h

-- Under a number that no task has, the last task of the list is found, and an empty one only where
-- the list is empty.
pub get_task-unused :
    (other seq : ℤ) (tasks : List Task)
    → IsUnused seq tasks
    → get_task other seq tasks ≡ last_or (empty_task other) tasks
unfolding get_task
get_task-unused other seq tasks h = find_task-unused seq (empty_task other) tasks h
