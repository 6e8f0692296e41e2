-- ===== src/Lib.antt =====
-- A co-simulation of a distribution feeder: its parts as federates that exchange JSON over HELICS.
-- The feeder federate (LocalFeeder) drives OpenDSS and publishes the topology, voltages and powers;
-- the measuring federate picks and disturbs measurements; a state estimator (wls_federate) and
-- optimisations (lindistflow_federate, omoo_federate) read them and send set points back; recorders
-- store what is published, and a broker starts the parts.
--
-- Files and the code they follow:
-- - Prelude: shared names, and Python's lists, dicts, strings and exceptions. A method that mutates
--   its object is an `Exec`: it keeps the object beside an error, as Python does. A pure function
--   that may raise gives a `Result`.
-- - Floats: Python's floats and complex numbers, as a record of operations without laws.
-- - Indexing: the dicts of positions in `permutation` (LocalFeeder/FeederSimulator.py) and
--   `get_indices` (measuring_federate/measuring_federate.py, wls_federate/state_estimator_federate.py).
-- - Feeder: the class `FeederSimulator` (LocalFeeder/FeederSimulator.py) and LocalFeeder/dss_functions.py.
--   Feeder.Engine is what they call of OpenDSS: the commands are kept as a history, and each answer is
--   some function of the history, a parameter. Feeder.Sim is the object; Feeder.Run the methods that
--   switch and solve; Feeder.Matrix the admittance matrices; Feeder.Load loading and `change_obj`;
--   Feeder.Voltages and Feeder.Power the getters; Feeder.Inverter the inverter control; Feeder.Pv set
--   points and forecast; Feeder.Incidence `get_incidences`. Feeder.States is a step relation on the
--   states.
-- - Adapter: lindistflow_federate/adapter.py. Adapter.Info and Adapter.Extract make buses and branches
--   of a topology; Adapter.Measurements reads voltages and powers.
-- - Area: lindistflow_federate/area.py.
-- - Lindistflow: lindistflow_federate/lindistflow.py. Lindistflow.Build is the pair of arrays being
--   filled, with what was written to it newest first, and the row that is next; Lindistflow.Balance,
--   Lindistflow.Drop and Lindistflow.Injection write the equations of flow, of voltage drops and of
--   injections, Lindistflow.Limits the inequalities, Lindistflow.Solution reads what the solver
--   answers, and Lindistflow.Program is `optimal_power_flow`. Integers that may be negative, as
--   numpy's indices, are the type of Prelude.Integers.
-- - Measuring: measuring_federate/measuring_federate.py. The times that HELICS grants are a list, which
--   the loop follows.
-- - Cosim: LocalFeeder/sender_cosim.py: the arrays that the feeder federate publishes, and in Cosim.Loop
--   the loop of `go_cosim` over the simulator, with the data of Cosim.Current.
--   Cosim.Initial is `get_initial_data`. The times that HELICS grants are a list with the inputs at
--   each, which the loop follows.
-- - Recorder: recorder/record_subscription.py: the rows of both writers, and the loop over the times
--   that HELICS grants. What Arrow accepts as a batch and as a file is a parameter.
-- - Wls: wls_federate/state_estimator_federate.py. Wls.Arrays is what it calls of numpy and scipy on
--   arrays, with matrices, sparse ones too, as rows; Wls.Model is the estimate, the residuals and the
--   Jacobian; Wls.Estimator sets the problem and reads the answer; Wls.Federate is the loop, which
--   follows a list of what HELICS answers.
-- - Opf: lindistflow_federate/opf_federate.py, which joins Adapter, Area and Lindistflow: the commands
--   of a round, and the loop, which follows a list of what HELICS answers. A row of the area is seen as
--   a bus by the adapter and written back for the optimisation.
-- - Broker: broker/server.py, and in `configure_component` the handler that each component's server
--   has for its configuration. Broker.Wired joins the two; Broker.Started is about the start.
-- - Servers: LocalFeeder/server.py, measuring_federate/server.py and recorder/server.py: the replies of
--   their other handlers.
-- - Omoo: omoo_federate/OMOO.py: the gradient step of the online optimisation and its projections.
-- - Samples: data for the tests. Witnesses stand in the Tests modules.
--
-- All functions are structural recursions, so no fuel is used. Where a method has the source's name in
-- capitals or with a leading underscore, the name here is in small letters without it.
--
-- Parameters: OpenDSS (Engine), float arithmetic (Floats), `numpy.linalg.pinv`, numpy's random
-- generator, `networkx.connected_components`, cvxpy's solver, scipy's least squares with what is
-- called of numpy on complex arrays (Wls.Arrays), HTTP requests, and what is called of xarray on
-- arrays with names (Cosim.Current).
--
-- Not modelled: logging; files, S3 and JSON; the set-up of federates; the rest of the online
-- optimisation (omoo_federate); of the web servers the health checks, the wait for the sensors,
-- the download of all results and the end of the HELICS broker; plots and test data.
pub mod Prelude
pub mod Indexing
pub mod Floats
pub mod Feeder
pub mod Adapter
pub mod Area
pub mod Measuring
pub mod Lindistflow
pub mod Cosim
pub mod Recorder
pub mod Wls
pub mod Opf
pub mod Broker
pub mod Servers
pub mod Omoo
pub mod Samples
