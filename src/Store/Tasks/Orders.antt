-- ===== src/Store/Tasks/Orders.antt =====
-- The orders in which internal/store/memory_task_store.go picks tasks are strict orders, and tasks
-- of different ids never tie.
use taskpulse.Prelude.{
  ◌≡◌, false, arith, IsOrder, text_ltb_irrefl, text_ltb_asym, text_ltb_skip, text_ltb_total,
}
use taskpulse.Task.{Task}
use taskpulse.Store.Tasks.{lease_before, available_before}

pub lease_before-IsOrder : IsOrder lease_before
unfolding lease_before
lease_before-IsOrder = record {
  irrefl = λ a. ground (arith, text_ltb_irrefl a.id);
  asym = λ a b h. ground (arith, text_ltb_asym a.id b.id);
  skip = λ a b c h k. ground (arith, text_ltb_skip a.id b.id c.id);
}

pub available_before-IsOrder : IsOrder available_before
unfolding available_before
available_before-IsOrder = record {
  irrefl = λ a. ground (arith, text_ltb_irrefl a.id);
  asym = λ a b h. ground (arith, text_ltb_asym a.id b.id);
  skip = λ a b c h k. ground (arith, text_ltb_skip a.id b.id c.id);
}

pub lease_before-tie :
    (s t : Task) → lease_before s t ≡ false → lease_before t s ≡ false → s.id ≡ t.id
unfolding lease_before
lease_before-tie s t p q = ground (arith, text_ltb_total s.id t.id)

pub available_before-tie :
    (s t : Task) → available_before s t ≡ false → available_before t s ≡ false → s.id ≡ t.id
unfolding available_before
available_before-tie s t p q = ground (arith, text_ltb_total s.id t.id)
