-- ===== src/Lib.antt =====
-- Gomega, a matcher and assertion library: the core of its assertions, of its polling assertions and
-- of the state that some of its matchers and helpers keep.
--
-- Base holds the shared names: Boolean tests, lists measured by native numbers and integers.
-- Errors (internal/polling_signal_error.go) has the errors: StopTrying and TryAgainAfter signals,
-- wrapping, and AsPollingSignalError over a chain of errors.
-- Assertion (internal/assertion.go) has Expect: NewAssertion, Error, vetActuals, vetError and match
-- as `new_assertion`, `error_of`, `vet_values`, `vet` and `match_actual`; `should` is the assertion
-- methods, and its result carries the calls of Fail.
-- Async (internal/async_assertion.go, internal/duration_bundle.go) has the configuration of Eventually
-- and Consistently. Async.Poller has buildActualPoller, processReturnValues and the poller of a
-- function with its deferred function. Async.Loop has `match`: `poll` is a poll of the function and
-- the matcher, `check` an iteration of the loop up to the `select`, `loop` the loop over the cases of
-- the `select`, and `match_async` the whole. Async.Loop.Grades grades a poll by the loop's variables,
-- Async.Loop.Verdicts by the environment alone.
-- Async.Args (internal/gomega.go) has makeAsyncAssertion: which of the arguments of Eventually is the
-- actual value, the context, and the intervals.
-- Gbytes (gbytes/buffer.go, gbytes/say_matcher.go) has Buffer and its methods; Gbytes.Detect has the
-- goroutine of Detect as a step relation, whose steps interleave with the other methods, and
-- Gbytes.Stream sequences of calls, against a stream of bytes.
-- Matchers (matchers/and.go, or.go, not.go, with_transform.go) has the combining matchers as trees
-- over other matchers, with the state that Match leaves in them and their oracles.
-- Collections (matchers/have_exact_elements.go, have_each_matcher.go, contain_element_matcher.go,
-- be_element_of_matcher.go) has matchers over the elements of a collection.
-- SemiStructured (matchers/semi_structured_data_support.go) has the comparison of JSON and YAML values
-- with the path to a mismatch.
-- Receive (matchers/receive_matcher.go) has the Receive matcher with the channel it is about;
-- Receive.Steps has the steps in which other goroutines send and close.
-- Numerically (matchers/be_numerically_matcher.go, matchers/type_support.go) has BeNumerically, Gexec
-- (gexec/session.go, gexec/exit_matcher.go) a session with the Exit matcher, and Goraph
-- (matchers/support/goraph) the bipartite graph behind ConsistOf, with its guide layers in
-- Goraph.Layers and the search of alternating paths down them in Goraph.Slap.
-- Gstruct (gstruct/elements.go, fields.go, keys.go, ignore.go, pointer.go) has the matchers of
-- elements, fields and keys by name: `elements_loop` and `missing` are the two loops of matchElements,
-- and `entries_loop` the loop of matchFields and matchKeys, with `check_entry` on an entry.
-- Ghttp (ghttp/test_server.go) has the test server: its handlers by turns, its routes, and ServeHTTP up
-- to the call of a handler. Ghttp.Order has sequences of calls of its methods, against a queue.
-- Gleak (gleak/goroutine/goroutine.go) has the parsing of a stack dump over bytes, Gleak.Strings what it
-- uses of Go's strings, and Gleak.Leaks (gleak/have_leaked_matcher.go, ignoring_top_function.go and the
-- other ignoring files) HaveLeaked with its filters.
-- Gmeasure (gmeasure/experiment.go, measurement.go, enum_support.go) has an experiment and what is
-- recorded in it, Gmeasure.Stats the statistics of a measurement, Gmeasure.Sampling the loop of Sample,
-- Gmeasure.Sorting what sort.Slice promises, Gmeasure.Enums the JSON of enums, Gmeasure.Cache (gmeasure/cache.go) the cache of experiments on
-- a disk, and Gmeasure.Rank (gmeasure/rank.go, stats.go) the ranking of Stats.
-- Table (gmeasure/table/table.go) has the tables of reports: its cells, Table.Rows the rows, and
-- Table.Widths computeWidths and Render of a table.
-- Format (format/format.go) has MessageWithDiff over the bytes of texts, Format.Formatters the registry
-- of custom formatters, Format.Texts indentString and truncateLongStrings, and Format.Values
-- formatValue on the tree of a value.
-- Stopwatch (gmeasure/stopwatch.go) has the stopwatch.
--
-- How the parts meet: an assertion calls a matcher's Match, an `Any A → Verdict` here; the polling
-- loop calls the function, the matcher's oracle and then its Match at each poll, all three from the
-- environment `Env`, which may behave differently at every poll; Say is a matcher on a Buffer, whose
-- oracle ends an Eventually once the buffer is closed.
--
-- Conventions. Code of other libraries is a parameter: reflection (`is_zero`, FuncType), regular
-- expressions (`Regexp`, whose matches lie in range), sort.Slice,
-- encoding/json, the arithmetic of floats, the clock. Shared state is passed along, and a
-- panic is `none` or a constructor of its own. The order in which the cases of a `select` fire is the
-- argument `List Event`, and every loop is structural in it or in a list of the source, but for that
-- of the guide layers, whose fuel is one more than the number of nodes, that of Sample, whose fuel is
-- the number of samples at most, and that of parseStack, whose fuel is one more than the number of
-- lines; each is shown to be enough. The loop that scales the columns of a table has the 101 rounds
-- after which the source breaks it off. Integers
-- are unbounded, on the assumption that indices, counts and nanoseconds stay below 2 ^ 63, except in
-- Numerically and toDuration, which have the 64 bits and their wrap-around; MustPassRepeatedly and the durations of
-- the configuration may be negative.
--
-- Not modelled: the texts of failures and errors (FailureMessage) but for what Format has of them,
-- reflection on the kinds of values, the loop of the largest matching, the handlers of ghttp, the texts
-- of the reports of gmeasure, the messages and the built-in filters of gleak, gcustom and the rest of
-- gexec.
pub mod Base
pub mod Errors
pub mod Async
pub mod Gbytes
pub mod Matchers
pub mod Collections
pub mod Assertion
pub mod Stopwatch
pub mod Numerically
pub mod Gexec
pub mod Goraph
pub mod Gstruct
pub mod Ghttp
pub mod Gleak
pub mod Gmeasure
pub mod Table
pub mod Format
pub mod SemiStructured
pub mod Receive
