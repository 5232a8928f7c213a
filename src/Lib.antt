-- ===== src/Lib.antt =====
-- The programs of a networked camera: in C, from C/source/production, a picture server on the
-- camera (server.c), a motion server beside it (motion_server.c), and what the two share; in Java,
-- from edaf55_project_java, the client behind its GUI: it receives pictures, keeps them until they are
-- shown, sends the mode, and asks for motion.
--
-- The parts and how they interact
--   * The picture server. `main` opens two listening sockets and starts `bg_task` and the accept
--     loop; that loop starts three threads for a client and joins them. `take_picture_task` gets a
--     frame from the camera, makes a packet of it and saves it in the camera monitor;
--     `send_picture_task` writes the packet to the client; `update_mode_task` reads the mode from a
--     second connection, and clears `isConnected` when that one ends.
--   * The camera monitor (camera_monitor.c) holds the packet, the mode and whose turn it is.
--   * The camera (camera.c) wraps the capture library; built with FAKE that is fakecapture.c,
--     which plays numbered files.
--   * The motion server reads notifications of the camera (`GET /motion?Message=<time>`) and
--     answers clients with the times of the last event. Each of its clients is served in turn.
--   * server_common.c writes whole buffers; both servers use it.
--   * The client has one `PictureReciever` thread for each of two cameras. It reads the server's
--     packets and puts the pictures into the `ClientMonitor`, from which the display gets them. A
--     `ClientConnectionThread` makes the connection. `ModeSender` sends the mode that the monitor
--     says, `MotionDataReceiver` tells it of motion, and the `DisplayMonitor` holds pictures back
--     until they are due.
--
-- Which file models which part
--   * ServerCommon: C/source/production/server_common.c. BasicServer and BasicClient:
--     C/source/BasicServer.c and C/source/BasicClient.c, the first prototypes.
--   * CameraMonitor, Camera, FakeCapture: camera_monitor.c, camera.c and fakecapture.c of
--     C/source/production, with one definition for each function, under its name.
--     FakeCapture/Sockets has the functions of fakecapture.c again with the calls that they make on
--     `motionfd`, and Camera/Blocks those of camera.c and fakecapture.c with what they allocate and
--     free, over the blocks of Memory/Blocks.
--   * Packet: `setup_packet` of server.c, and the two readers of the header in
--     edaf55_project_java/src/networking/PicturePack.java.
--   * Server/Frames: getting, saving and sending a frame in server.c. Server/Tasks: the three
--     threads of a client as steps on the shared state; a step is what a thread does between two
--     points at which another one can run. Server/Stream: the same threads with the frames that they
--     move, from the files of the fake camera to the connection; Server/Stream/Relay is the abstract
--     specification of it. Server/BgTask: `bg_task`. Server/Lifecycle: sockets, threads, the accept
--     loop (Accept) and `main` (Main).
--   * MotionServer/Request and MotionServer/Respond: the two parsers and `serve_client` of
--     motion_server.c. MotionServer/Notify: `motion_task`. MotionServer/BgTask: `bg_task`.
--     MotionServer/Lifecycle: sockets, threads, `ui_task`, the accept loop and `main`.
--   * PictureReciever: how the client reads the pictures, from
--     edaf55_project_java/src/networking/PictureReciever.java: the inner loop of `run`.
--   * Connection: the three threads of the client that share a connection, as steps on their
--     `NetMonitor`: the outer loop of PictureReciever.java, ClientConnectionThread.java and
--     ClientShutdownThread.java of edaf55_project_java/src/networking.
--   * ClientMonitor: edaf55_project_java/src/client/ClientMonitor.java, what the threads of the
--     client share: pictures, the mode, and whether the two cameras are shown synchronously.
--     ClientMonitor/Running has its calls one after the other.
--   * DisplayMonitor: DisplayMonitor.java beside it, what the two displays of the client share.
--   * ModeSender: ModeSender.java and ModePack.java of edaf55_project_java/src/networking, which send
--     the mode; its steps run between the client's monitor and `update_mode_task` of the server.
--   * MotionDataReceiver: MotionDataReceiver.java and MotionPack.java of the same folder, with which
--     the client asks the motion server and reads the three times of its answer.
--   * MotionClient: motion_client.c, which tells the motion server of motion and asks it.
--   * Text and Memory: `strlen`, `strncmp`, `atol`, `snprintf`, `memcpy` and numbers in memory, as
--     far as the programs use them. Socket and Os: the calls of the operating system.
--   * Base: names and lemmas that all share. Tests: runs, and the theorems at concrete inputs.
--
-- How the code is modelled
--   * State is passed on explicitly; a record stands for each struct. `none` is an access that C
--     leaves undefined, or fuel that ran out, as each definition says.
--   * Calls of the operating system are parameters: Socket for what a connection takes, with the
--     laws of POSIX in IsLawful; Os for the results of the calls of a start, which may depend on all
--     calls before, with the laws of `errno` in SetsErrno. Files and the clock are arguments. Java's
--     InputStream is a parameter with its documented laws in IsStream; IsPrompt says besides that a
--     header's bytes come in one read, IsWhole that all bytes asked for do if they are there, and
--     TakesAll of a socket that it takes each buffer in one go. Connects says that the calls for a
--     notification succeed, and that a new descriptor is not open yet; Allocates, that `malloc` has
--     room, and that a new block is none of the live ones.
--   * Numbers: `size_t`, `int` and `long` have 32 bits and are little-endian, as on the camera
--     (`mipsisa32r2el` in C/source/production/Makefile; server.c refuses to send where a size has
--     not 4 bytes). Wrap-around is written out. A `long` of Java has 64 bits; it is the number of
--     its bits.
--   * Fuel: `write_n` has n + 1 rounds and `send_all` len + 1, since each call but the last takes
--     a byte; 20 digits are enough for a number below 2 ^ 64. The accept loops take the fuel as an
--     argument, and their theorems hold for all of it or say how much is enough. The client's loops
--     have one round more than bytes to read. Endless loops are modelled by any number of rounds.
--   * A read of the client can throw an IOException where its socket is closed, or where the network
--     fails; `Breaks` says on which sockets that can be, and any relation may stand for it.
--   * The mutex is held by one thread, or by nobody. A thread that waits on the condition is
--     parked until a broadcast or a wake-up for no reason.
--
-- Not modelled
--   * What is printed, `perror` and the DEBUG, INFO and MULTI_CLIENT_THREADS variants; the AXIS
--     capture library and C/source/production/connectToServer and copyToServer.
--   * C/source/jpeglib.c, the example of the IJG library; C/source/ImageHandler.c and
--     C/source/camera.h, which have no bodies.
--   * The rest of the Java client under edaf55_project_java: the GUI, and the outer loops of
--     ModeSender.java, MotionRequestSender.java and MotionDataReceiver.java, which have the shape of
--     the one that is modelled.
pub mod Base
pub mod Text
pub mod Socket
pub mod Os
pub mod ServerCommon
pub mod BasicServer
pub mod BasicClient
pub mod MotionServer
pub mod MotionClient
pub mod PictureReciever
pub mod ClientMonitor
pub mod Connection
pub mod DisplayMonitor
pub mod ModeSender
pub mod MotionDataReceiver
pub mod Memory
pub mod CameraMonitor
pub mod FakeCapture
pub mod Camera
pub mod Packet
pub mod Server
mod Tests
