-- ===== src/Lib.antt =====
-- Gyoto, the general-relativistic orbit tracer: a model of the parts of its C++ library that hold
-- state, and the theorems that make them correct.
--
-- The parts and how they interact. A Scenery ray-traces the pixels that a set of coordinates of its
-- Screen runs through: workers on several threads share the set and write the cells of one image, or
-- a manager gives the pixels to processes and stores what they send. The
-- light of a pixel is a Photon, a Worldline whose arrays grow as it is integrated. It ends on objects,
-- which may be composed of others, and is seen by a spectrometer, which may be composed of others that
-- tell it of their changes. Kinds of objects are found in a register that plug-ins fill, and
-- objects are described by named properties, which XML files and bindings set and read.
--
--   Screen: the sets of coordinates of lib/Screen.C. Coord1d has Range, Indices, Angles and RepeatAngle,
--     with operator++ (advance), operator* (deref), valid, size, begin, angle and index; Coord2d has
--     Grid, Bucket and Empty. Coord1d/Walk and Coord2d/Walk describe the pixels still to come as a
--     list, and Coord2d/Order gives their order in closed form.
--   Scenery/Worker: SceneryThreadWorker and the threads of Scenery::rayTrace in lib/Scenery.C. A schedule
--     is the list of the workers whose turn it is; the critical section is one step (fetch), the ray
--     tracing with the write of its cell another (deliver). Invariant and Steps hold the invariant,
--     Complete and Frame what a finished run has written, Progress its end, and LateRead the reads
--     past the end of a list. The ray tracing of one target is a parameter.
--   Scenery/Quantities: the quantities that a Scenery computes, in lib/Scenery.C: the bits of Quantity_t, how
--     they are read from a text (request_string) and written to one (quantities_string), and their counts.
--     Units::Converter is a parameter. Scenery/Mpi is where the quantities of a pixel stand in the
--     message between the processes of Scenery::rayTrace, and its Manager the loop of the manager over
--     the messages of its workers, in the order of a schedule: Rounds has what each of them keeps,
--     Complete what a finished run has written. Triage is which quantities the manager copies from a
--     message and what stands there, a parameter where several spectra overlap; Threads compares the
--     manager with the threads of Worker.
--   Worldline: the arrays of lib/Worldline.C: xExpand (expand), xStore (store), and in Fill xFill (fill).
--     The integrator, the metric and the arithmetic on double are the record Integrator, and the errors
--     that the integrator may throw at its calls the record Failures. The loop runs
--     on fuel: maxiter_ rounds, and 2^64 where maxiter_ is 0, since the code compares a size_t counter
--     after raising it. The last round ends the loop, so that the fuel never runs out before it.
--     Locate is getCoord at dates of one's own choice: Extend and Bracket have the cursors that enclose a
--     date, Search the binary search between them, which gets as many rounds as the cursors are apart,
--     and Total the whole. The interpolation between two samples is a parameter, in Geometry.
--   Photon: the transmissions of lib/Photon.C, for the observed frequency and by channel. Hit is hit:
--     the loop over what is computed (scan) and the start of the integration (trace). Iteration is its
--     integration loop; Crossings counts the crossings of the equatorial plane in an iteration. scan has
--     fuel x_size_ + 1, one round for each cell; the iterations stop at maxiter_ samples.
--   Hooks: the chain of listeners of lib/Hooks.C.
--   Spectrometer: Spectrometer::Generic; Uniform is lib/UniformSpectrometer.C (reset_ and the setters);
--     Complex is lib/ComplexSpectrometer.C, on a heap in which elements are addresses, so that an
--     element that is shared or changed from outside is one object. Its arrays are copied by the
--     counts that an element announces (Gather), and a setter of an element may return before it tells
--     its listeners (Coherent).
--   Astrobj/Complex: lib/ComplexAstrobj.C, over any objects (the record Objects).
--   Astrobj/Properties: Astrobj::Properties of lib/Astrobj.C, with the pointers as addresses in a memory of
--     doubles: init, operator+= (advance) and the conversion to Quantity_t.
--   PatternDisk: lib/PatternDisk.C. The arrays and their setters; Sound has the sizes that they keep, Changes
--     any sequence of the setters, those of a pointer included, and the copy; reading a FITS file is
--     not among them. Cells is getIndices, where the quotients that are turned into
--     indices are a hypothesis (Rounds) on the operations of double; its loop that makes an azimuth
--     positive gets a number of rounds, and the theorems hold for any number. Emission is emission,
--     transmission and the interpolation of getVelocity.
--   Disk3d: lib/Disk3D.C, in the same way: Changes has the sizes of its arrays after any calls, Cells
--     getIndices and the reads of getVelocity. Its two loops on the azimuth get a number of rounds.
--   Register: lib/Register.C and the macro of include/GyotoRegister.h. The dynamic linker and the names of
--     files are the record Linker. Startup is Register::init, with the text that lists the plug-ins.
--   Value: the values of lib/Value.C and their casts. Object: the look-up of properties in lib/Object.C,
--     and what is set and read by name; Parameters has fillProperty and setParameter, through which an
--     object is written to XML and read from it. The accessors of a class are arbitrary functions.
--   Utils/Split: split, in lib/Utils.C, on texts as lists of character codes. Its loop gets as many rounds
--     as the text has characters, since each raises the position.
--   SmartPointer: include/GyotoSmartPointer.h and lib/SmartPointer.C, the reference counts by which
--     objects are shared. Holders follows one change of a counter, Counted the operations.
--   Prelude: shared names, lists over native numbers, and Outcome: a value, a Gyoto::Error, or
--     undefined behaviour such as a read past the end of an array.
--
-- A size_t has 64 bits, with its wrap-around written out where an index or a counter can reach it; the
-- sizes of arrays in memory are taken not to. A double is a type F with the operations the code uses.
--
-- Not modelled: the formulas of metrics, spectra and emitting objects, which compute in floating point;
-- XML (Xerces), FITS files, units (udunits), the calls of MPI, and LORENE, which are other libraries; the bindings
-- for Python and Yorick and the command line program.
pub mod Astrobj
pub mod Disk3d
pub mod Hooks
pub mod Object
pub mod PatternDisk
pub mod Photon
pub mod Prelude
pub mod Register
pub mod Scenery
pub mod Screen
pub mod SmartPointer
pub mod Spectrometer
pub mod Utils
pub mod Value
pub mod Worldline
