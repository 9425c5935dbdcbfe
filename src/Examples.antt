-- ===== src/Examples.antt =====
-- Concrete inputs of excimer_log.c, excimer_timer.c and timerlib at which the theorems are applied.
mod LogExamples
mod ReportExamples
mod TimerExamples
mod LifeExamples
mod ProfilerExamples
mod ObjectExamples
mod HandlerExamples
mod KqueueExamples
mod DoubleExamples
mod StringExamples
mod MutexExamples
mod OwnershipExamples
mod InterruptExamples
