-- ===== src/Examples/Patterns.antt =====
-- A pattern with a star.
use node_red_contrib_eelectr.Base.{◌≡◌, ◌/◌, ◌%◌, refl, arith, ◌&&◌, none, some, ok}
use node_red_contrib_eelectr.Core.GaMatcher.{GaMatcher, compile_ga_pattern, matches}
use node_red_contrib_eelectr.Core.GaMatcher.Patterns.{
  pattern_text, stands_for, matches-compile_ga_pattern,
}

-- 1/*/3 against 1/2/3.
matches-compile_ga_pattern_example :
    (c : GaMatcher) × (compile_ga_pattern (pattern_text (some 1) none (some 3)) ≡ ok c)
    × (matches c 0x0a03 ≡ (
        stands_for (some 1) (0x0a03 / 2048 % 32)
        && stands_for none (0x0a03 / 256 % 8)
        && stands_for (some 3) (0x0a03 % 256)))
matches-compile_ga_pattern_example =
    matches-compile_ga_pattern (some 1) none (some 3) 0x0a03 (omega arith) tt (omega arith) refl
