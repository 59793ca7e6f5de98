-- ===== src/X86/Eflags.antt =====
-- nemu/src/isa/x86/local-include/rtl.h and exec/cc.h: what is a `TODO()` there.
use nju_ics2020_pa.Base.{
  ℕ, ◌||◌, ◌==◌, if◌then◌else◌, bit_and, Result, ok, stop, assertion, ◌>>=◌, ◌>>◌, assert,
}
use nju_ics2020_pa.Rtl.Machine.{Exec, Loc, load}
use nju_ics2020_pa.Rtl.Basic.{rtl_xori}

module _ {D : Type 0} where
  pub rtl_push : Loc → Exec D → Result (Exec D)
  rtl_push src1 e = stop assertion

  pub rtl_pop : Loc → Exec D → Result (Exec D)
  rtl_pop dest e = stop assertion

  pub rtl_is_sub_overflow : Loc → Loc → Loc → Loc → ℕ → Exec D → Result (Exec D)
  rtl_is_sub_overflow dest res src1 src2 width e = stop assertion

  pub rtl_is_sub_carry : Loc → Loc → Loc → Exec D → Result (Exec D)
  rtl_is_sub_carry dest src1 src2 e = stop assertion

  pub rtl_is_add_overflow : Loc → Loc → Loc → Loc → ℕ → Exec D → Result (Exec D)
  rtl_is_add_overflow dest res src1 src2 width e = stop assertion

  pub rtl_is_add_carry : Loc → Loc → Loc → Exec D → Result (Exec D)
  rtl_is_add_carry dest res src1 e = stop assertion

  -- The eight functions that the macro makes.
  pub rtl_set_flag : Loc → Exec D → Result (Exec D)
  rtl_set_flag src e = stop assertion

  pub rtl_get_flag : Loc → Exec D → Result (Exec D)
  rtl_get_flag dest e = stop assertion

  pub rtl_update_zf : Loc → ℕ → Exec D → Result (Exec D)
  rtl_update_zf result width e = stop assertion

  pub rtl_update_sf : Loc → ℕ → Exec D → Result (Exec D)
  rtl_update_sf result width e = stop assertion

  pub rtl_update_zfsf : Loc → ℕ → Exec D → Result (Exec D)
  rtl_update_zfsf result width e = do
    e' ← rtl_update_zf result width e
    rtl_update_sf result width e'

  -- Every case of the `switch` panics.
  pub query_eflags : Loc → ℕ → Exec D → Result (Exec D)
  query_eflags dest cc e = stop assertion

  pub rtl_setcc : Loc → ℕ → Exec D → Result (Exec D)
  rtl_setcc dest subcode e = do
    e₁ ← query_eflags dest (bit_and subcode 0xe) e
    e₂ ← if bit_and subcode 0x1 == 0 then ok e₁ else rtl_xori dest dest 0x1 e₁
    assert (load dest e₂ == 0 || load dest e₂ == 1)
    ok e₂
