-- ===== src/Lib.antt =====
-- The ODE server, Server/src: an HTTP server that integrates a system of ordinary differential
-- equations by the solver that a request names and streams the points back.
--
-- A request passes through three parts. The route /solve (Server/src/Routers.cpp) loads the
-- parameters into a task manager (Server/src/odesolvers-lib/src/TaskManager.cpp), which has the
-- right-hand side, and takes the initial point from them (Server/src/ParseUtils.cpp). It then runs
-- one solver of Server/src/odesolvers-lib, which calls the right-hand side and adds points to a
-- storage, and writes the storage out.
--
-- - Base: shared names and the notions that the sources are translated into. Base/Outcome has what
--   a call comes to (a value, an exception by its class and message, undefined behaviour, or no end
--   within the fuel), Base/Loop the `while` loops, Base/Double the type `double`, Base/Int the type
--   `int` of a request, Base/Ring and Base/Field the laws of exact arithmetic, without and with
--   division, Base/Milli and Base/Mod7 two small arithmetics for the tests.
-- - Vectors: CommonFunctions.cpp.  Storage: Storage.cpp.
-- - Solver: Solver.hpp, the contract of `Solve` (Solver/Trail: what is stored is a chain of
--   steps; Solver/Journey: what the rounds hand on to each other)
--   and the loop of the solvers whose `Step` rejects (Solver/Adaptive). Solver/Parabola is a system
--   on which the formulas of the steps are tried (in Rk2/Exact, Rk23s/Exact,
--   Steks/Exact, Dispd/Quadrature and Disps/Quadrature).
-- - Euler, Rk23s, Steks, Dispd: EulerSolver, RK23SSolver, STEKSSolver, DISPDSolver, each with
--   `Step` and `Solve` and a child of the same name for what is proved of it.  Rk2: RK2Solver,
--   likewise.
-- - Disps: DISPSSolver.cpp (Disps/Stages the steps, Disps/Control the controls, Disps/Solve the
--   loop; Disps/Switch, Variants, Sizes, Quadrature and Trajectory are about them).
-- - DispsOld: DISPSSolver_old.cpp, which DISPSSolver has replaced (DispsOld/Steps its steps against
--   those of DISPSSolver, DispsOld/Trajectory its Solve).
-- - Dispf: DISPFSolver.cpp (Dispf/StepA, StepB and StepC the three steps, Dispf/Jacobian and
--   Dispf/Stability what they share, Dispf/Solve the loop).
-- - Invariants: families of points that the steps of all the solvers stay in, whatever their
--   coefficients (Invariants/Explicit, Dispd, Disps and Dispf the solvers, Invariants/Columns the
--   matrix of DISPFSolver by its columns, Invariants/Linear and Rest the families).
-- - Tasks: TaskManager.cpp (Tasks/Load its LoadParameters).
-- - Params: ParseUtils.cpp (Params/Key the pattern of the keys, Params/Order and Conditions what
--   the order of the map and of equal indices comes to, Params/Result what is returned).
--   `std::sort` is a parameter, of which a theorem asks that it sorts.
-- - Requests: Routers.cpp, POST /solve, which joins the other parts: the parameters, the point, the
--   task, the solver of the method, the response (Requests/Solves the storages of the methods,
--   Requests/Answers what the thread sends, Requests/Failures the error responses,
--   Requests/Boundary an interval that is empty, Requests/Fuel the rounds and the fuel,
--   Requests/Invariants, Robertson and Rest families of points and the storages).
--   nlohmann::json is the record Base/Json, whose operations may throw; a call that throws
--   `undefined`, as `operator[]` of a const object does for a key that is not there, is not caught.
-- - Stream: Routers.cpp, the response of /solve (Stream/Text its text, Stream/Bodies its chunks).
--   The answers of `isConnected()` and `json::dump` are parameters.  Flags: its ParseDispsFlags,
--   with `contains` and `get<int>` as parameters.
-- - Tests: the theorems at concrete inputs, and runs.
--
-- `double` is an interface with no laws of its own (the record `Double`): the sources' arithmetic
-- is translated operation by operation, decimal literals included, and a theorem that needs a
-- property of the arithmetic has it as a hypothesis (`<` is irreflexive or transitive, NaN is
-- carried on, or, for a statement on the formulas without their rounding errors, the arithmetic is
-- exact). A right-hand side is a function from a time and a vector to a vector or an
-- exception. The lambdas of TaskManager write to `parameters`, and are translated with the
-- parameters as they leave them.
--
-- `Solve` may run for ever in the sources, so a model of it takes a number of rounds and gives the
-- state after them, with the word whether the loop has ended (`Flow`), so that a statement on
-- `Solve` can be one on the state after any number of rounds. `RK2Solver::Step` loops with no bound
-- and takes fuel; the loops of the steps of DISPFSolver, and their calls of themselves, take fuel
-- likewise. No number of rounds or amount of fuel is enough for every request, so both are
-- arguments up to the thread of a request (Requests), where a solver that has not ended comes to no
-- response. The ten attempts of DISPDSolver::Step and the thirty tries of DISPSSolver::Solve are
-- counted down. Indices and counters are naturals: they stay below the sizes of vectors or below
-- 30, and `vnBreakCount` goes up by 2 at most in a step, so they are far from the limits of `int`
-- and `size_t`.
--
-- Not modelled: libhv and nlohmann::json (Server/contrib), the HTTP server's start-up, and the
-- client.
pub mod Base
pub mod Vectors
pub mod Invariants
pub mod Storage
pub mod Solver
pub mod Euler
pub mod Rk23s
pub mod Steks
pub mod Rk2
pub mod Dispd
pub mod Disps
pub mod DispsOld
pub mod Dispf
pub mod Tasks
pub mod Stream
pub mod Flags
pub mod Params
pub mod Requests
pub mod Tests
