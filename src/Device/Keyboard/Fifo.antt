-- ===== src/Device/Keyboard/Fifo.antt =====
-- The keyboard is a queue of at most 1023 key codes, first in, first out.
use nju_ics2020_pa.Base.{
  ℕ, ◌+◌, ◌-◌, ◌%◌, ◌<◌, ◌≡◌, refl, Bool, true, false, not, ◌&&◌, List, [], ◌∷◌, ◌++◌, ◌==◌, ltb,
  if◌then◌else◌, Result, ok, stop, assertion, ◌>>=◌, update, length, length-append, arith,
  Bool-cases, inl, inr, sym, subst,
}
use nju_ics2020_pa.Device.Keyboard.{
  Keyboard, key_none, key_queue_len, init_i8042, am_scancode, send_key, i8042_data_io_handler,
}

-- From place `i` on, round the array, the queue holds `q`.
abbrev pub Slots : (ℕ → ℕ) → ℕ → List ℕ → Type 0
Slots buf i [] = Unit {0}
Slots buf i (x ∷ q) = (buf i ≡ x) × Slots buf ((i + 1) % key_queue_len) q

pub record IsQueue (k : Keyboard) (q : List ℕ) : Type 0 where
  pub slots : Slots k.key_queue k.key_f q
  pub front : k.key_f < key_queue_len
  pub rear : k.key_r ≡ (k.key_f + length q) % key_queue_len
  pub room : length q < key_queue_len

-- What happens to the keyboard: SDL reports a key while the machine runs or not, or the guest reads
-- the data port.
pub data Event : Type 0 where
  key : Bool → ℕ → Bool → Event
  read : Event

-- The place behind the end can be written.
Slots-snoc :
    (buf : ℕ → ℕ) (i v : ℕ) (q : List ℕ)
    → i < key_queue_len
    → length q < key_queue_len
    → Slots buf i q
    → Slots (update buf ((i + length q) % key_queue_len) v) i (q ++ v ∷ [])
Slots-snoc buf i v [] h room s = (ground arith, tt)
Slots-snoc buf i v (x ∷ q) h room s = (
  ground (arith, s.0),
  subst (λ j. Slots (update buf j v) ((i + 1) % key_queue_len) (q ++ v ∷ [])) (omega arith)
      (Slots-snoc buf ((i + 1) % key_queue_len) v q (omega arith) (omega arith) s.1),
)

module _ (keymap : ℕ → ℕ) where
  -- The queue as a list: a key of the map is put at the end while the machine runs, at most 1023 at a
  -- time; a read takes the first key, or `key_none`.
  abbrev pub spec_step : Event → List ℕ → Result (List ℕ × List ℕ)
  spec_step (key running scancode is_keydown) q =
      if running && not (keymap scancode == key_none)
      then (if ltb (length q) (key_queue_len - 1)
          then ok ([], q ++ am_scancode keymap scancode is_keydown ∷ [])
          else stop assertion)
      else ok ([], q)
  spec_step read [] = ok (key_none ∷ [], [])
  spec_step read (x ∷ q) = ok (x ∷ [], q)

  -- One event, with what the guest reads.
  pub step : Event → Keyboard → Result (List ℕ × Keyboard)
  step (key running scancode is_keydown) k =
      send_key keymap running scancode is_keydown k >>= λ k'. ok ([], k')
  step read k = i8042_data_io_handler 0 4 false k >>= λ k'. ok (k'.data_port ∷ [], k')

  -- All that the guest reads.
  pub run : List Event → Keyboard → Result (List ℕ)
  run [] k = ok []
  run (e ∷ es) k = do (out, k') ← step e k; more ← run es k'; ok (out ++ more)

  abbrev pub spec_run : List Event → List ℕ → Result (List ℕ)
  spec_run [] q = ok []
  spec_run (e ∷ es) q = spec_step e q >>= λ (out, q'). spec_run es q' >>= λ more. ok (out ++ more)

  -- What a step of the program has to do where the list does `r`.
  abbrev Agrees : Result (List ℕ × List ℕ) → Result (List ℕ × Keyboard) → Type 0
  Agrees (stop e) r = r ≡ stop e
  Agrees (ok (out, q)) r = (k : Keyboard) × (r ≡ ok (out, k)) × IsQueue k q

  push-IsQueue :
      (k : Keyboard) (q : List ℕ) (v : ℕ)
      → IsQueue k q
      → length q < key_queue_len - 1
      → IsQueue
          (record k {
            key_queue = update k.key_queue k.key_r v;
            key_r = (k.key_r + 1) % key_queue_len;
          })
          (q ++ v ∷ [])
  push-IsQueue k q v h room = record {
    slots =
        subst (λ j. Slots (update k.key_queue j v) k.key_f (q ++ v ∷ [])) (sym h.rear)
          (Slots-snoc k.key_queue k.key_f v q h.front h.room h.slots);
    front = h.front;
    rear = omega (arith, h.rear, length-append q (v ∷ []));
    room = omega (arith, length-append q (v ∷ []));
  }

  step-key :
      (running : Bool) (scancode : ℕ) (is_keydown : Bool) (k : Keyboard) (q : List ℕ)
      → IsQueue k q
      → Agrees
          (spec_step (key running scancode is_keydown) q)
          (step (key running scancode is_keydown) k)
  unfolding step send_key
  step-key running scancode is_keydown k q h =
      elim (Bool-cases (running && not (keymap scancode == key_none))) [
        | inr ignored ↦ rw ignored (k, refl, h)
        | inl taken ↦ elim (Bool-cases (ltb (length q) (key_queue_len - 1))) [
          | inl room ↦
              let apart : not ((k.key_r + 1) % key_queue_len == k.key_f) ≡ true =
                ground (arith, h.rear, h.front) in
              rw (taken, room, apart) (_, refl, push-IsQueue k q _ h (ground arith))
          | inr full ↦
              let meets : not ((k.key_r + 1) % key_queue_len == k.key_f) ≡ false =
                ground (arith, h.rear, h.front, h.room) in
              rw (taken, full, meets)
        ]
      ]

  step-read : (k : Keyboard) (q : List ℕ) → IsQueue k q → Agrees (spec_step read q) (step read k)
  unfolding step i8042_data_io_handler
  step-read k [] h =
      let empty : not (k.key_f == k.key_r) ≡ false = ground (arith, h.rear, h.front) in
      (
        record k { data_port = key_none },
        rw empty,
        record { slots = tt; front = h.front; rear = h.rear; room = h.room },
      )
  step-read k (x ∷ q) h =
      let more : not (k.key_f == k.key_r) ≡ true = ground (arith, h.rear, h.front, h.room) in
      (
        record k { data_port = k.key_queue k.key_f; key_f = (k.key_f + 1) % key_queue_len },
        rw (more, h.slots.0),
        record {
          slots = h.slots.1;
          front = omega arith;
          rear = omega (arith, h.rear);
          room = omega (arith, h.room);
        },
      )

  step-Agrees :
      (e : Event) (k : Keyboard) (q : List ℕ) → IsQueue k q → Agrees (spec_step e q) (step e k)
  step-Agrees (key running scancode is_keydown) k q h = step-key running scancode is_keydown k q h
  step-Agrees read k q h = step-read k q h

  run-from :
      (e : Event) (es : List Event) (k : Keyboard) (r : Result (List ℕ × List ℕ))
      → ((k' : Keyboard) (q' : List ℕ) → IsQueue k' q' → run es k' ≡ spec_run es q')
      → Agrees r (step e k)
      → run (e ∷ es) k ≡ (r >>= λ (out, q'). spec_run es q' >>= λ more. ok (out ++ more))
  unfolding run
  run-from e es k (stop s) ih a = rw a
  run-from e es k (ok (out, q)) ih (k', a, h) = rw (a, ih k' q h)

  -- For every sequence of key reports and reads, from a keyboard that holds the keys `q`, the guest
  -- reads what it reads from the list; a key too many is the same assertion.
  pub run-spec_run :
      (es : List Event) (k : Keyboard) (q : List ℕ) → IsQueue k q → run es k ≡ spec_run es q
  unfolding run
  run-spec_run [] k q h = refl
  run-spec_run (e ∷ es) k q h =
      run-from e es k (spec_step e q) (run-spec_run es) (step-Agrees e k q h)

pub init_i8042-IsQueue : IsQueue init_i8042 []
unfolding init_i8042
init_i8042-IsQueue = record { slots = tt; front = omega arith; rear = refl; room = omega arith }

-- A machine that does not run keeps its queue.
pub send_key-stopped :
    (keymap : ℕ → ℕ) (scancode : ℕ) (is_keydown : Bool) (k : Keyboard)
    → send_key keymap false scancode is_keydown k ≡ ok k
unfolding send_key
send_key-stopped keymap scancode is_keydown k = refl
