-- ===== src/Device/Update/Quit.antt =====
-- nemu/src/device/device.c: what the events behind SDL_QUIT do.
use nju_ics2020_pa.Base.{
  ℕ, ◌%◌, Bool, true, false, ◌≡◌, refl, ap, ◌∙◌, List, [], ◌∷◌, ◌++◌, Result, ok, stop, ◌>>=◌,
}
use nju_ics2020_pa.Device.Keyboard.Fifo.{send_key-stopped}
use nju_ics2020_pa.Device.Update.{
  SdlEvent, sdl_quit, other_event, sdl_keydown, sdl_keyup, Devices, quit, on_key, on_event,
  poll_events, device_update,
}

bind_tail {ℓ} :
    {A : Type ℓ} {B : Type ℓ} {C : Type ℓ} (r : Result A) (f : A → Result C) (g : A → Result B)
    (q : B → Result C)
    → ((a : A) → f a ≡ (g a >>= q))
    → (r >>= f) ≡ (r >>= g >>= q)
bind_tail (stop e) f g q h = refl
bind_tail (ok a) f g q h = h a

module _ {S : Type 0} (keymap : ℕ → ℕ) (vga_update_screen : S → S) where
  on_key-quit :
      (c : ℕ) (b : Bool) (d : Devices S)
      → on_key keymap vga_update_screen c b (quit d) ≡ ok (quit d)
  unfolding on_key
  on_key-quit c b d =
      ap (λ r. r >>= λ k. ok (record (quit d) { keyboard = k }))
        (send_key-stopped keymap (c % 256) b d.keyboard)

  on_event-quit :
      (e : SdlEvent) (d : Devices S) → on_event keymap vga_update_screen e (quit d) ≡ ok (quit d)
  unfolding on_event
  on_event-quit sdl_quit d = refl
  on_event-quit other_event d = refl
  on_event-quit (sdl_keydown c) d = on_key-quit c true d
  on_event-quit (sdl_keyup c) d = on_key-quit c false d

  poll_events-quit :
      (es : List SdlEvent) (d : Devices S)
      → poll_events keymap vga_update_screen es (quit d) ≡ ok (quit d)
  unfolding poll_events
  poll_events-quit [] d = refl
  poll_events-quit (e ∷ es) d =
      ap (λ r. r >>= poll_events keymap vga_update_screen es) (on_event-quit e d)
      ∙ poll_events-quit es d

  poll_events-append :
      (es fs : List SdlEvent) (d : Devices S)
      → poll_events keymap vga_update_screen (es ++ sdl_quit ∷ fs) d
        ≡ (poll_events keymap vga_update_screen es d >>= λ x. ok (quit x))
  unfolding poll_events on_event
  poll_events-append [] fs d = poll_events-quit fs d
  poll_events-append (e ∷ es) fs d =
      bind_tail (on_event keymap vga_update_screen e d)
        (poll_events keymap vga_update_screen (es ++ sdl_quit ∷ fs))
        (poll_events keymap vga_update_screen es) (λ x. ok (quit x)) (poll_events-append es fs)

  -- If the flag is set and the user closes the window after the events `es`, whatever SDL has queued
  -- behind that has no effect: the events before it are handled, keys included, an assertion of theirs
  -- is the result, and otherwise the state is NEMU_QUIT.
  pub device_update-quit :
      (es fs : List SdlEvent) (d : Devices S)
      → d.device_update_flag ≡ true
      → device_update keymap vga_update_screen (es ++ sdl_quit ∷ fs) d
        ≡ (device_update keymap vga_update_screen es d >>= λ x. ok (quit x))
  unfolding device_update
  device_update-quit es fs d h = rw (h, poll_events-append es fs)
