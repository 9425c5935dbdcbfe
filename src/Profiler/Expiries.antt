-- ===== src/Profiler/Expiries.antt =====
-- From the expiries that the kernel counts, by the signals of timerlib_posix.c, to the event count of
-- a sample.
use mediawiki_php_excimer.Prelude.{List}
use mediawiki_php_excimer.Timespec.{Timespec}
use mediawiki_php_excimer.Log.{Log}
use mediawiki_php_excimer.Profiler.{Profiler}
