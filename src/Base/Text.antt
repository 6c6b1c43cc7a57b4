-- ===== src/Base/Text.antt =====
-- The string operations of Python that the program calls, over the native text.
use Prim.Native.Char.{Char, code}
use Prim.Native.String.{String, [], ◌∷◌}
use mathlib.Core.Bool.{Bool, true, false, ◌&&◌, ◌||◌}
use text.Mathlib.Text.{◌==◌ as str_eq}
use mathlib.Core.Option.{Option, none, some}
use django_ansible_base.Base.Tests.{leb, nat_beq, if◌then◌else◌}

-- `s.startswith(t)`
abbrev pub starts_with : String → String → Bool
starts_with s [] = true
starts_with [] (d ∷ t) = false
starts_with (c ∷ s) (d ∷ t) = nat_beq (code c) (code d) && starts_with s t

-- `s.endswith(t)`
abbrev pub ends_with : String → String → Bool
ends_with [] t = str_eq [] t
ends_with (c ∷ s) t = str_eq (c ∷ s) t || ends_with s t

-- `t in s`
abbrev pub has_infix : String → String → Bool
has_infix [] t = starts_with [] t
has_infix (c ∷ s) t = starts_with (c ∷ s) t || has_infix s t

-- The characters that `str.strip` removes and that `\s` matches in a pattern.
abbrev pub is_space : Char → Bool
is_space c =
    let n = code c in
    (leb 9 n && leb n 13)
    || (leb 28 n && leb n 32)
    || nat_beq n 133
    || nat_beq n 160
    || nat_beq n 5760
    || (leb 8192 n && leb n 8202)
    || nat_beq n 8232
    || nat_beq n 8233
    || nat_beq n 8239
    || nat_beq n 8287
    || nat_beq n 12288

-- `s.strip() == ''`
abbrev pub is_blank : String → Bool
is_blank [] = true
is_blank (c ∷ s) = is_space c && is_blank s

-- what follows the first dot of a text
abbrev pub after_dot : String → Option String
after_dot [] = none
after_dot (c ∷ s) = if nat_beq (code c) 46 then some s else after_dot s
