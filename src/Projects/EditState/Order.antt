-- ===== src/Projects/EditState/Order.antt =====
-- The sort key of edits is a strict order, read negatively as sorting needs it.
use uv_studio.Base.{
  ◌≡◌, true, false, arith, text_eq_iff, text_lt_asym, text_lt_neg_trans, text_lt_irrefl,
  text_lt_connex, ◌≤◌,
}
use uv_studio.Projects.EditState.Edit.{Edit, edit_before}

pub edit_before_asym : (a b : Edit) → edit_before a b ≡ true → edit_before b a ≡ false
unfolding edit_before
edit_before_asym a b h = ground (
  arith,
  text_lt_asym a.source_path b.source_path,
  text_lt_asym a.edit_id b.edit_id,
  text_eq_iff a.source_path b.source_path,
  text_eq_iff b.source_path a.source_path,
  text_lt_irrefl a.source_path,
)

pub edit_before_neg_trans :
    (a b c : Edit) → edit_before b a ≡ false → edit_before c b ≡ false → edit_before c a ≡ false
unfolding edit_before
edit_before_neg_trans a b c h k = ground (
  arith,
  text_lt_neg_trans a.source_path b.source_path c.source_path,
  text_lt_neg_trans a.edit_id b.edit_id c.edit_id,
  text_eq_iff b.source_path a.source_path,
  text_eq_iff c.source_path b.source_path,
  text_eq_iff c.source_path a.source_path,
  text_lt_connex a.source_path b.source_path,
  text_lt_connex b.source_path c.source_path,
)

-- On one source, an edit that is not sorted before another does not start before it.
pub start-le_of_not_before :
    (a b : Edit) → a.source_path ≡ b.source_path → edit_before b a ≡ false → a.start_us ≤ b.start_us
unfolding edit_before
start-le_of_not_before a b e h = ground (arith, text_eq_iff b.source_path a.source_path)
