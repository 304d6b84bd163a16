-- ===== src/Store/Select.antt =====
-- The loops of internal/store/memory_task_store.go that pick a task: a `range` over the task map
-- with `continue` for the tasks that do not qualify and a `selected` that a better task replaces.
pub mod Best
use taskpulse.Prelude.{
  String, Bool, true, false, ◌&&◌, Option, none, some, [], ◌∷◌, Assoc, if◌then◌else◌,
}

module _ {T : Type 0} where
  -- `selected == nil || ...`
  abbrev pub improves : (T → T → Bool) → T → Option (String × T) → Bool
  improves before t none = true
  improves before t (some (k, s)) = before t s

  -- Keys come with the tasks, since a task is changed where it is stored.
  unfoldable pub select :
      (T → Bool) → (T → T → Bool) → Assoc T → Option (String × T) → Option (String × T)
  select eligible before [] selected = selected
  select eligible before ((k, t) ∷ m) selected =
      select eligible before m
        (if eligible t && improves before t selected then some (k, t) else selected)
