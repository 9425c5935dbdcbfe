-- ===== src/Examples/StringExamples.antt =====
-- The life of a log that takes the same stack twice, under a depth limit that cuts it off, in a heap
-- where nothing refers to a string.
use mediawiki_php_excimer.Prelude.{ℕ, ◌≡◌, List, [], ◌∷◌, arith}
use mediawiki_php_excimer.Bytes.{Bytes}
use mediawiki_php_excimer.Run.{ok}
use mediawiki_php_excimer.Zend.Assoc.{assoc}
use mediawiki_php_excimer.Zend.Counts.{counts}
use mediawiki_php_excimer.Log.Strings.{Taken, life}
use mediawiki_php_excimer.Log.Strings.Released.{calls, life-restores}
use mediawiki_php_excimer.Examples.LogExamples.{stack, memory, lines}

abbrev samples : List Taken
samples =
    record { stack = stack; event_count = 1; timestamp = 10 }
    ∷ record { stack = stack; event_count = 2; timestamp = 20 }
    ∷ []

abbrev unused : Bytes → ℕ
unused t = 0

life-restores_example :
    (h' : Bytes → ℕ) × (life memory samples unused ≡ ok h') × ((t : Bytes) → h' t ≡ 0)
unfolding calls
life-restores_example = life-restores memory samples unused (lines, (lines, tt)) (omega arith)
