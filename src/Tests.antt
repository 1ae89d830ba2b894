-- ===== src/Tests.antt =====
-- Concrete inputs, and each theorem with hypotheses applied to one.
mod Trees
mod Fixtures
mod CacheWitness
mod AddonctlWitness
mod ValidatorWitness
mod AcceptsWitness
mod UpdaterWitness
mod RaceWitness
mod ControllerWitness
mod PanicWitness
mod TypedWitness
mod ProgressWitness
mod WorkflowsWitness
mod SystemWitness
mod BuilderWitness
mod CreateWitness
