-- ===== src/Shell/Output.antt =====
-- `sc_shell_out`: the bounded buffer that commands print into (src/sc_shell.cpp lines 19 to 60).
pub mod Shown
use esp_soulcloud_client.Prelude.{
  ℕ, zero, suc, ◌+◌, ◌-◌, ◌≤◌, ◌<◌, List, [], ◌∷◌, ◌++◌, ◌≡◌, refl, sym, ap, ◌∙◌, subst, ◌⊎◌, inl,
  inr, Bool, true, false, ◌||◌, Option, none, some, Bytes, length, take, set, get_or, copy_at, leb,
  ltb, ◌==◌, if◌then◌else◌, Bool-cases, length-append, length-set, append-nil, append_assoc, arith,
}
use esp_soulcloud_client.Prelude.Memory.{take-set-copy_at, length-copy_at, get_or-set_self}

-- The buffer of `size` bytes.
pub record ShellOut : Type 0 where
  pub buf : Bytes
  pub size : ℕ
  pub pos : ℕ
  pub full : Bool

-- The constructor.
unfoldable pub open_out : Bytes → ℕ → ShellOut
open_out buf size = record {
  buf = if ltb 0 size then set buf 0 0 else buf;
  size = size;
  pos = 0;
  full = false;
}

unfoldable pub write : ShellOut → Bytes → ShellOut
write out str =
    if out.size == 0 || out.full
    then out
    else (let room = out.size - 1 - out.pos in
        if ltb room (length str)
        then record out {
          buf = set (copy_at out.buf out.pos (take room str)) (out.pos + room) 0;
          pos = out.pos + room;
          full = true;
        }
        else record out {
          buf = set (copy_at out.buf out.pos str) (out.pos + length str) 0;
          pos = out.pos + length str;
        })

-- `printf`, on what `vsnprintf` makes of the arguments: the text, or `none` where it returns less than
-- 0. `vsnprintf` writes at most one byte less than its size and a NUL.
unfoldable pub printf : ShellOut → Option Bytes → ShellOut
printf out none =
    if out.size == 0 || out.full then out else record out { buf = set out.buf out.pos 0 }
printf out (some text) =
    if out.size == 0 || out.full
    then out
    else (let shown = take (out.size - out.pos - 1) text in
        let buf' = set (copy_at out.buf out.pos shown) (out.pos + length shown) 0 in
        if leb (out.size - out.pos) (length text)
        then record out { buf = buf'; pos = out.size - 1; full = true }
        else record out { buf = buf'; pos = out.pos + length text })
