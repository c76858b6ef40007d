-- ===== src/Lib.antt =====
-- PipeAI for RK3588: the C++ runtime that turns radar and IMU samples into pipe-defect classes.
--
-- The application's main thread replays a sensor file and submits its samples to a bounded queue;
-- a first worker collects windows of 128 samples and preprocesses each into a [128, 9] tensor; a
-- second worker runs the model on the NPU; a third one applies softmax, picks the class and calls
-- the callback. Bounded queues join the workers.
--
--   Prelude         numbers, lists and writes into arrays, used by every part. Prelude/Int has integers
--                   over the native numbers, Prelude/Tests the Boolean tests.
--   Queue           pipeline/blocking_queue.hpp: `BlockingQueue`, each member function as what it does
--                   under the mutex. Queue/Wakeups has the sleeping threads and the two condition
--                   variables, with every notification a step of its own.
--   Handover        tests/test_blocking_queue.cpp: its two threads, over any values and capacity.
--   Floats          the `float` and `double` operations that the source calls, as a parameter. IEEE
--                   arithmetic is the platform's: `IsIeee` names what is used of NaN and the order.
--                   Floats/Fixed is an exact instance, integers with NaN, in which the filter's weights
--                   count 42nds.
--   Text, Status    strings as lists of code points, and include/pipeai/error.hpp.
--   Types           include/pipeai/types.hpp: samples, the tensor, the result.
--   Csv             preprocess/csv_reader.cpp: `CsvReader`. The file is a parameter, as the lines of
--                   `std::getline`, and so is `std::strtof`.
--   Config          runtime/config.cpp: `Config`, likewise over the lines and the number conversions.
--   Repair          preprocess/missing_repair.cpp: `repair_radar_channel` and `sanitize_imu`.
--   Savgol          preprocess/savgol.cpp: `savgol_7_2_interp` with its table of weights.
--   Resample        preprocess/resample.cpp: `resample_linear_normalized`.
--   Preprocessor    preprocess/preprocessor.cpp: `Preprocessor::run`, composed of the three above.
--   Classifier      postprocess/softmax.cpp and postprocess/classifier.cpp.
--   Engine          model/model_loader.cpp and model/rknn_engine.cpp: `RknnEngine`, in builds with and
--                   without the NPU's SDK. The SDK is a parameter, the results of its calls as
--                   functions of their arguments.
--   BufferPool      tensor/buffer_pool.cpp: `BufferPool`, with its users.
--   Bridge          pipeline/inference_pipeline_bridge.cpp: `InferencePipelineBridge`, one window in one
--                   call. Its preprocessor's options are an argument.
--   Worker          pipeline/worker.cpp: the flag and the thread of a `Worker`.
--   WorkerManager   runtime/worker_manager.cpp: `WorkerManager`, a list of named workers.
--   Pipeline        pipeline/pipeline.cpp: the three workers, cut where they touch a queue, so that a
--                   schedule is a sequence of steps. Pipeline/Shutdown adds the threads with their flags
--                   and the steps of `Pipeline::stop`, which run among the others.
--   PreprocessCsv   tools/preprocess_csv.cpp: the program that reads a CSV file, preprocesses it and
--                   prints the tensor, composed of Csv and Preprocessor.
--   Quant           tensor/quantizer.cpp, tensor/tensor_converter.cpp, tensor/int8_input_pack.cpp,
--                   tensor/int8_output_unpack.cpp and optimization/quant/int8_quantizer.cpp. What
--                   `std::round` gives is a parameter.
--   Normalize       optimization/neon/neon_normalize.cpp and preprocess/normalize_dispatch.cpp, built for
--                   NEON. The intrinsics are a parameter.
--   RuntimeInfo     model/rknn_runtime/rknn_engine_runtime.cpp: `RknnRuntimeInfo::query`. The answers of
--                   the SDK are a parameter.
--   Logger          runtime/logger.cpp: `Logger`, with what the streams and files have taken.
--   Sensor          sensor/csv_sensor.cpp: `CsvSensor`. The file is a parameter, as its lines, and so is
--                   what `>>` makes of a number.
--   Startup         app/main.cpp: `main` up to the application, over Config and Logger.
--   App             runtime/application.cpp: `Application`, and `main` around it. The main thread
--                   reads the sensor, submits to the pipeline and sleeps in `run`, while the pipeline's
--                   workers take their steps in any order.
--   Tensor          tensor/tensor.cpp: `Tensor`. Its sizes wrap at 64 bits; the allocator is a parameter.
--   Latency         benchmarks/p99_latency.cpp: `percentile`. `std::sort` is a parameter.
--
-- Correspondence. A function keeps its name. A `std::vector` or `std::array` is a list; an out
-- parameter is a further component of the result; `std::optional` is Option. An index out of range,
-- which is undefined in the source, reads NaN in the model.
--
-- Loops are structural recursion, but for the last loop of `repair_radar_channel`, whose index jumps
-- from one valid reading to the next: it runs on as much fuel as there are samples, which is enough, as
-- each round moves the index; and the vector loops of Normalize, on as much fuel as there are values,
-- which is enough, as each round takes four.
--
-- A `std::size_t`, the window counter and the counts of the report are natural numbers: they count
-- samples, windows and threads, and 64 bits do not wrap in practice. In Tensor, where a product of
-- dimensions is taken, it wraps.
--
-- Where the source converts to `int`, or adds on `int`, in Quant, a result out of range is undefined
-- behaviour and `none`; a conversion to `int8_t` wraps.
--
-- The reads of a sensor's file run on fuel in `read_all`: one more than the file has lines is enough, as
-- each read takes a line.
--
-- Not modelled: the sensor manager, which does not compile, the stubs of the second engine wrapper, the
-- tensor memory pool, `Application::shutdown`, which is called behind a `run` that does not return, the
-- watchdog and the metrics, the measurement programs, the other test programs, and the Python
-- training code.
pub mod Prelude
pub mod Queue
pub mod Floats
pub mod Text
pub mod Status
pub mod Csv
pub mod Config
pub mod Types
pub mod Repair
pub mod Savgol
pub mod Resample
pub mod Preprocessor
pub mod Classifier
pub mod Engine
pub mod BufferPool
pub mod Bridge
pub mod Quant
pub mod Normalize
pub mod PreprocessCsv
pub mod Logger
pub mod Handover
pub mod Latency
pub mod RuntimeInfo
pub mod Sensor
pub mod Startup
pub mod App
pub mod Tensor
pub mod Worker
pub mod WorkerManager
pub mod Pipeline
