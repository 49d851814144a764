-- ===== src/Kernel/Memory.antt =====
-- The commands of src/kernel.c for blocks and pages of memory.
use rpi4_bare_metal_os.Prelude.{
  ℕ, ◌+◌, ◌-◌, ◌*◌, ◌%◌, ◌^◌, ◌&&◌, ◌||◌, Option, none, some, List, [], ◌∷◌, leb, ◌==◌,
  if◌then◌else◌, ◌>>=◌, bit_or,
}
use rpi4_bare_metal_os.Uart.Print.{Print, put_dec, put_hex, say}
use rpi4_bare_metal_os.Text.{parse_num}
use rpi4_bare_metal_os.Memory.Heap.{kmalloc}
use rpi4_bare_metal_os.Memory.Pages.{page_alloc, page_free}
use rpi4_bare_metal_os.Kernel.{Kernel}
use rpi4_bare_metal_os.Kernel.Args.{Done, skip_spaces}

unfoldable pub cmd_alloc : (fuel : ℕ) → List ℕ → Kernel → Done
cmd_alloc fuel text k =
    let size : ℕ = parse_num text in
    if size == 0 then some (k, say "Usage: alloc <size>\n" ∷ []) else (do
      r ← kmalloc fuel size k.fs.memory
      some (
        record k { fs = record k.fs { memory = r.0 } },
        if r.1 == 0
            then say "Allocation failed!\n" ∷ []
            else say "Allocated " ∷ put_dec size ∷ say " bytes at " ∷ put_hex r.1 ∷ say "\n" ∷ [],
      ))

unfoldable pub cmd_pgalloc : Kernel → Kernel × List Print
cmd_pgalloc k =
    let (pages, page) = page_alloc k.fs.memory.pages in
    (
      record k { fs = record k.fs { memory = record k.fs.memory { pages = pages } } },
      if page == 0
          then say "Page allocation failed!\n" ∷ []
          else say "Page at " ∷ put_hex page ∷ say "\n" ∷ [],
    )

-- The value of a hexadecimal digit.
abbrev pub hex_value : ℕ → Option ℕ
hex_value c =
    if leb b'0' c && leb c b'9'
    then some (c - b'0')
    else (if leb b'a' c && leb c b'f'
        then some (c - b'a' + 10)
        else (if leb b'A' c && leb c b'F' then some (c - b'A' + 10) else none))

-- The loop of `pgfree`: the address is shifted before the digit is looked at.
unfoldable pub parse_hex : (addr : ℕ) → List ℕ → ℕ
parse_hex addr [] = addr
parse_hex addr (c ∷ cs) =
    let shifted : ℕ = addr * 2 ^ 4 % 2 ^ 64 in
    elim (hex_value c) [ none ↦ shifted | some d ↦ parse_hex (bit_or shifted d) cs ]

-- `if (s[0] == '0' && (s[1] == 'x' || s[1] == 'X')) s += 2;`
unfoldable pub skip_prefix : List ℕ → List ℕ
skip_prefix (a ∷ b ∷ cs) = if a == b'0' && (b == b'x' || b == b'X') then cs else a ∷ b ∷ cs
skip_prefix (a ∷ []) = a ∷ []
skip_prefix [] = []

-- The address that `pgfree` reads.
unfoldable pub parse_address : List ℕ → ℕ
parse_address text = parse_hex 0 (skip_prefix (skip_spaces text))

unfoldable pub cmd_pgfree : List ℕ → Kernel → Kernel × List Print
cmd_pgfree text k =
    let addr : ℕ = parse_address text in
    if addr == 0 then (k, say "Usage: pgfree <hex_address>\n" ∷ []) else (
      record k {
        fs = record k.fs {
          memory = record k.fs.memory { pages = page_free addr k.fs.memory.pages };
        };
      },
      say "Freed page at " ∷ put_hex addr ∷ say "\n" ∷ [],
    )
