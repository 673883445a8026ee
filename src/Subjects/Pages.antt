-- ===== src/Subjects/Pages.antt =====
-- The pages of a list.
use enterprise_rag.Prelude.{ℕ, ◌≤◌, arith, if◌then◌else◌}
use enterprise_rag.Prelude.Int.{ℤ, int_ltb, to_ℕ}
use enterprise_rag.Subjects.{normalize}

-- A page, its size, and where it starts.
pub record IsPage (p : ℕ × ℕ × ℤ) : Type 0 where
  pub page : 1 ≤ p.0
  pub size : 1 ≤ p.1
  pub small : p.1 ≤ 100

page_bound : (page : ℤ) → 1 ≤ (if int_ltb page 1 then 1 else to_ℕ page)
page_bound (ℤ.pos n) = ground arith
page_bound (ℤ.negsuc n) = omega arith

-- Whatever a request asks, the page is at least 1 and its size from 1 to 100.
pub normalize-IsPage : (page page_size : ℤ) → IsPage (normalize page page_size)
unfolding normalize
normalize-IsPage page (ℤ.pos n) = record {
  page = page_bound page;
  size = ground arith;
  small = ground arith;
}
normalize-IsPage page (ℤ.negsuc n) = record {
  page = page_bound page;
  size = omega arith;
  small = omega arith;
}
