-- ===== src/Shell/Ring.antt =====
-- The history ring: the commands from the last one on.
use rpi4_bare_metal_os.Prelude.{
  ℕ, ◌+◌, ◌-◌, ◌*◌, ◌%◌, ◌≤◌, ◌<◌, ◌≡◌, ◌≢◌, ◌⊎◌, ◌↔◌, ap, inl, inr, refl, true, false, none, some,
  List, [], ◌∷◌, ltb, ◌==◌, if◌then◌else◌, update, length, arith, Bool-cases,
}
use native.Mathlib.Decide.{ℕ_discrete}
use rpi4_bare_metal_os.Text.{str_eq_iff}
use rpi4_bare_metal_os.Shell.{History, history_size, repeats, history_add, history_get}

pub record IsHistory (h : History) : Type 0 where
  pub write : h.write < history_size
  pub count : h.count ≤ history_size

-- The command is the last one, and the others are one further back; the 16th is lost.
abbrev pub Pushed : List ℕ → History → History → Type 0
Pushed cmd h h' =
    (i : ℕ)
    → history_get i h'
      ≡ (if i == 0 then some cmd else if ltb i history_size then history_get (i - 1) h else none)

pushed :
    (cmd : List ℕ) {h : History}
    → IsHistory h
    → Pushed cmd h (record {
      slots = update h.slots h.write cmd;
      write = (h.write + 1) % history_size;
      count = if ltb h.count history_size then h.count + 1 else h.count;
    })
unfolding history_get
pushed cmd {h} inv i = ground (arith, inv.write, inv.count)

repeats_iff :
    (cmd : List ℕ) {h : History}
    → IsHistory h
    → (repeats cmd h ≡ true) ↔ (history_get 0 h ≡ some cmd)
unfolding history_get
repeats_iff cmd {h} inv =
    let last : ℕ = (h.write + history_size - 1) % history_size in
    let same : (h.write + history_size * 2 - 1 - 0) % history_size ≡ last = omega arith in
    rw same (ground (arith, str_eq_iff (h.slots last) cmd, inv.write))

length-zero : (cmd : List ℕ) → length cmd ≡ 0 → cmd ≡ []
length-zero [] e = refl
length-zero (c ∷ cs) e = absurd (omega arith)

-- history_add keeps the indices of the ring in range; an empty command and one that repeats the
-- last one change nothing, and any other becomes the last one, with the 15 before it one further
-- back.
pub history_add-Pushed :
    (cmd : List ℕ) {h : History}
    → IsHistory h
    → IsHistory (history_add cmd h)
      × (((history_add cmd h ≡ h) × ((cmd ≡ []) ⊎ (history_get 0 h ≡ some cmd)))
          ⊎ ((cmd ≢ []) × (history_get 0 h ≢ some cmd) × Pushed cmd h (history_add cmd h)))
unfolding history_add
history_add-Pushed cmd {h} inv = elim (ℕ_discrete (length cmd) 0) [
  | yes none_typed ↦
      let empty : (length cmd == 0) ≡ true = ground arith in
      rw empty (inv, inl (refl, inl (length-zero cmd none_typed)))
  | no typed ↦
      let there : (length cmd == 0) ≡ false = ground arith in
      elim (Bool-cases (repeats cmd h)) [
        | inl again ↦ rw (there, again) (inv, inl (refl, inr ((repeats_iff cmd inv).0 again)))
        | inr new ↦
            rw (there, new)
              (
                record { write = omega arith; count = ground (arith, inv.count) },
                inr (
                  (λ e. typed (ap length e)),
                  (λ e. cc (new, (repeats_iff cmd inv).1 e)),
                  pushed cmd inv,
                ),
              )
      ]
]
