-- ===== src/Tests.antt =====
-- Runs of the model at concrete inputs, and the theorems at inputs that meet their hypotheses.
mod SbtTests
mod MibenchTests
mod FunctionTests
mod FloatTests
mod SectionTests
mod BranchTests
