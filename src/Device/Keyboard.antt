-- ===== src/Device/Keyboard.antt =====
-- nemu/src/device/keyboard.c. `keymap` is the table from SDL's scan codes, whose numbers SDL gives.
pub mod Fifo
mod Tests
use nju_ics2020_pa.Base.{
  ℕ, zero, suc, ◌+◌, ◌%◌, Bool, true, false, not, ◌&&◌, List, [], ◌∷◌, ◌==◌, if◌then◌else◌, Result,
  ok, ◌>>=◌, ◌>>◌, assert, update, bit_or,
}

abbrev pub key_none : ℕ
key_none = 0

abbrev pub key_queue_len : ℕ
key_queue_len = 1024

abbrev pub keydown_mask : ℕ
keydown_mask = 0x8000

-- `data_port` is the word at `i8042_data_port_base`.
pub record Keyboard : Type 0 where
  pub key_queue : ℕ → ℕ
  pub key_f : ℕ
  pub key_r : ℕ
  pub data_port : ℕ

pub init_i8042 : Keyboard
init_i8042 = record { key_queue = λ _. 0; key_f = 0; key_r = 0; data_port = key_none }

module _ (keymap : ℕ → ℕ) where
  -- The code that the guest sees.
  abbrev pub am_scancode : ℕ → Bool → ℕ
  am_scancode scancode is_keydown =
      bit_or (keymap scancode) (if is_keydown then keydown_mask else 0)

  -- `running` is `nemu_state.state == NEMU_RUNNING`. The queue is written before the test for overflow.
  pub send_key : Bool → ℕ → Bool → Keyboard → Result Keyboard
  send_key running scancode is_keydown k =
      if running && not (keymap scancode == key_none)
      then (do
        let r = (k.key_r + 1) % key_queue_len
        assert (not (r == k.key_f))
        ok (record k {
          key_queue = update k.key_queue k.key_r (am_scancode scancode is_keydown);
          key_r = r;
        }))
      else ok k

unfoldable pub i8042_data_io_handler : ℕ → ℕ → Bool → Keyboard → Result Keyboard
i8042_data_io_handler offset len is_write k = do
  assert (not is_write)
  assert (offset == 0)
  ok (
      if not (k.key_f == k.key_r)
      then record k { data_port = k.key_queue k.key_f; key_f = (k.key_f + 1) % key_queue_len }
      else record k { data_port = key_none })
