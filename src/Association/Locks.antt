-- ===== src/Association/Locks.antt =====
-- The two locks of the tables, in the order in which the code takes them: `get_or_create_association`
-- the sessions and then the associations, `spawn_association_cleanup_task` the associations and then
-- the sessions, both to the end of the block; a reply, and the cleanup's first look, the associations
-- alone.
use rxcore.Prelude.{◌≡◌, ◌≢◌, List, ◌∷◌, ◌++◌, Option, none, some, Bool, true, false}

pub data Lock : Type 0 where
  sessions assocs : Lock

pub data Kind : Type 0 where
  datagram cleanup look : Kind

unfoldable pub first_lock : Kind → Lock
first_lock datagram = sessions
first_lock cleanup = assocs
first_lock look = assocs

unfoldable pub second_lock : Kind → Option Lock
second_lock datagram = some assocs
second_lock cleanup = some sessions
second_lock look = none

-- A task waits for its first lock, or holds it, or holds both.
pub data Pc : Type 0 where
  start holds_first holds_both : Pc

pub record Task : Type 0 where
  pub kind : Kind
  pub pc : Pc

pub record Locks : Type 0 where
  pub sessions_held : Bool
  pub assocs_held : Bool
  pub tasks : List Task

unfoldable pub held : Lock → Locks → Bool
held sessions s = s.sessions_held
held assocs s = s.assocs_held

unfoldable pub set_held : Lock → Bool → Locks → Locks
set_held sessions b s = record s { sessions_held = b }
set_held assocs b s = record s { assocs_held = b }

abbrev pub task : Kind → Pc → Task
task kind pc = record { kind = kind; pc = pc }

pub data Step (s : Locks) : Locks → Type 0 where
  takes_first :
      (before after : List Task) (kind : Kind)
      → s.tasks ≡ before ++ task kind start ∷ after
      → held (first_lock kind) s ≡ false
      → Step s (record (set_held (first_lock kind) true s) {
        tasks = before ++ task kind holds_first ∷ after;
      })
  takes_second :
      (before after : List Task) (kind : Kind) (lock : Lock)
      → s.tasks ≡ before ++ task kind holds_first ∷ after
      → second_lock kind ≡ some lock
      → held lock s ≡ false
      → Step s (record (set_held lock true s) { tasks = before ++ task kind holds_both ∷ after })
  looked :
      (before after : List Task) (kind : Kind)
      → s.tasks ≡ before ++ task kind holds_first ∷ after
      → second_lock kind ≡ none
      → Step s (record (set_held (first_lock kind) false s) { tasks = before ++ after })
  finishes :
      (before after : List Task) (kind : Kind) (lock : Lock)
      → s.tasks ≡ before ++ task kind holds_both ∷ after
      → second_lock kind ≡ some lock
      → Step s (record (set_held lock false (set_held (first_lock kind) false s)) {
        tasks = before ++ after;
      })

pub data Steps (s : Locks) : Locks → Type 0 where
  here : Steps s s
  next : {t u : Locks} → Steps s t → Step t u → Steps s u

abbrev pub Waits : Task → Type 0
Waits t = t.pc ≡ start

-- A task that waits for a lock that another holds: none has both.
abbrev IsBlocked : Task → Type 0
IsBlocked t = (t.pc ≢ holds_both) × ((t.kind ≡ look) → t.pc ≢ holds_first)

abbrev pub unlocked : List Task → Locks
unlocked tasks = record { sessions_held = false; assocs_held = false; tasks = tasks }
